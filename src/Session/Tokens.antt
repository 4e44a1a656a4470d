-- ===== src/Session/Tokens.antt =====
-- Who may change the token of the session.
use mathlib.Core.Path.{subst, sym}
use whiparc.Prelude.{
  String, ℕ, ◌≡◌, refl, Bool, true, false, Option, none, some, List, Option-cases, Bool-cases, inl,
  inr, if◌then◌else◌, eqb,
}
use whiparc.Canvas.Json.{Fields}
use whiparc.Session.{Session, Reply, ok, refused, thrown, Outcome, has_token, text_field}
use whiparc.Session.Claims.{decode_token_claims}
use whiparc.Session.Replies.{
  logout, take_credentials, has_credentials, fail_loading, fail_verify, login_reply, signup_reply,
  verify_email_reply, fetch_me_reply, update_profile_reply, avatar_reply, delete_account_reply,
  confirm_email_change_reply,
}
use whiparc.Session.Calls.{
  Request, login, signup, verify_email, resend_verification, fetch_me, dismiss_onboarding,
  complete_tour, update_profile, upload_avatar, remove_avatar, delete_account, request_email_change,
  confirm_email_change, World, fetch_me_call, login_call, authorized, prefer, prefer_for, Call,
  log_in, sign_up, verify, resend, refresh, dismiss, complete, set_session, log_out, clear_error,
  update, upload, remove, delete, change_email, confirm_email, set_has_hydrated, rehydrated,
  set_session_from_token, call, reply, take_request, Event, called, replied, step,
}

-- The requests whose reply may carry a new token.
unfoldable pub gives_token : Request → Bool
gives_token login = true
gives_token verify_email = true
gives_token update_profile = true
gives_token upload_avatar = true
gives_token remove_avatar = true
gives_token confirm_email_change = true
gives_token _ = false

-- What the session promises about its token: it is kept, except that a log out, a rejected
-- profile request or a deleted account drops it, a reply to some requests replaces it by the one in
-- the reply, and the token of a redirect is adopted.
pub data Move (w : World) : Event → Option String → Type 0 where
  keeps : {e : Event} → Move w e w.session.token
  logs_out : Move w (called log_out) none
  rejected :
      {i status : ℕ} {text : String} {body : Fields} {rest : List Request}
      → take_request i w.pending ≡ some (fetch_me, rest)
      → eqb status 401 ≡ true
      → Move w (replied i (refused status text body)) none
  deleted :
      {i : ℕ} {body : Fields} {rest : List Request}
      → take_request i w.pending ≡ some (delete_account, rest)
      → Move w (replied i (ok body)) none
  signs_in :
      {i : ℕ} {q : Request} {body : Fields} {rest : List Request}
      → take_request i w.pending ≡ some (q, rest)
      → gives_token q ≡ true
      → Move w (replied i (ok body)) (text_field "token" body)
  adopts : {t : String} → Move w (called (set_session t)) (some t)

pub keeps_at : (w : World) (e : Event) {t : Option String} → t ≡ w.session.token → Move w e t
keeps_at w e h = subst (λ t. Move w e t) (sym h) keeps

module _ (w : World) where
  fetch_me_call-token : (v : World) → (fetch_me_call v).session.token ≡ v.session.token
  unfolding fetch_me_call
  fetch_me_call-token v = elim (Bool-cases (has_token v.session)) [
    | inl t ↦ rw t refl
    | inr f ↦ rw f refl
  ]

  authorized-token :
      (r : Request) (m : String) → (authorized r m w).0.session.token ≡ w.session.token
  unfolding authorized
  authorized-token r m = elim (Bool-cases (has_token w.session)) [
    | inl t ↦ rw t refl
    | inr f ↦ rw f refl
  ]

  prefer_for-token :
      (u : Option Fields) (r : Request) (k : String)
      → (prefer_for u r k w).0.session.token ≡ w.session.token
  unfolding prefer_for
  prefer_for-token none r k = refl
  prefer_for-token (some u) r k = elim (Bool-cases (has_token w.session)) [
    | inl t ↦ rw t refl
    | inr f ↦ rw f refl
  ]

  prefer-token : (r : Request) (k : String) → (prefer r k w).0.session.token ≡ w.session.token
  unfolding prefer
  prefer-token r k = prefer_for-token w.session.user r k

module _ (parse_base64 : String → Option Fields) where
  set_session-Move :
      (t : String) (w : World)
      → Move w (called (set_session t)) (set_session_from_token parse_base64 t w).0.session.token
  unfolding set_session_from_token
  set_session-Move t w = elim (Option-cases (decode_token_claims parse_base64 t)) [
    | inl e ↦ rw (e, set_session_from_token) keeps
    | inr (u, e) ↦
        rw (e, set_session_from_token)
          (subst (λ x. Move w (called (set_session t)) x) (sym (fetch_me_call-token w _)) adopts)
  ]

  call-Move : (c : Call) (w : World) → Move w (called c) (call parse_base64 c w).0.session.token
  unfolding call login_call logout
  call-Move log_in w = keeps
  call-Move sign_up w = keeps
  call-Move verify w = keeps
  call-Move resend w = keeps_at w _ (authorized-token w _ _)
  call-Move refresh w = keeps_at w _ (fetch_me_call-token w w)
  call-Move dismiss w = keeps_at w _ (prefer-token w _ _)
  call-Move (complete true) w = keeps_at w _ (prefer-token w _ _)
  call-Move (complete false) w = keeps_at w _ (prefer-token w _ _)
  call-Move (set_session t) w = set_session-Move t w
  call-Move log_out w = logs_out
  call-Move clear_error w = keeps
  call-Move update w = keeps_at w _ (authorized-token w _ _)
  call-Move upload w = keeps_at w _ (authorized-token w _ _)
  call-Move remove w = keeps_at w _ (authorized-token w _ _)
  call-Move delete w = keeps_at w _ (authorized-token w _ _)
  call-Move change_email w = keeps_at w _ (authorized-token w _ _)
  call-Move confirm_email w = keeps
  call-Move (set_has_hydrated b) w = keeps
  call-Move rehydrated w = keeps_at w _ (fetch_me_call-token w _)

pub if-both {ℓ κ} :
    {A : Type ℓ} {B : Type κ} (f : A → B) (b : Bool) (x y : A) {t : B}
    → f x ≡ t
    → f y ≡ t
    → f (if b then x else y) ≡ t
if-both f true x y h h' = h
if-both f false x y h h' = h'

credentials-Move :
    (w : World) (b : Bool) (i : ℕ) (q : Request) (body : Fields) (rest : List Request)
    (s s' : Session)
    → take_request i w.pending ≡ some (q, rest)
    → gives_token q ≡ true
    → s.token ≡ text_field "token" body
    → s'.token ≡ w.session.token
    → Move w (replied i (ok body)) (if b then s else s').token
credentials-Move w true i q body rest s s' at gives h h' =
    subst (λ t. Move w (replied i (ok body)) t) (sym h) (signs_in at gives)
credentials-Move w false i q body rest s s' at gives h h' = keeps_at w _ h'

module _ (w : World) (i : ℕ) (rest : List Request) where
  reply-Move :
      (q : Request) (r : Reply)
      → take_request i w.pending ≡ some (q, rest)
      → Move w (replied i r) (reply q r (record w { pending = rest })).0.session.token
  unfolding reply login_reply signup_reply verify_email_reply fail_loading fail_verify login_call
      fetch_me_reply take_credentials logout delete_account_reply update_profile_reply avatar_reply
      confirm_email_change_reply gives_token
  reply-Move login (ok body) h =
      subst (λ t. Move w (replied i (ok body)) t) (sym (fetch_me_call-token w _)) (signs_in h refl)
  reply-Move login (refused st text body) h = keeps
  reply-Move login (thrown e) h = keeps
  reply-Move signup (ok body) h = keeps
  reply-Move signup (refused st text body) h =
      keeps_at w _ (if-both (λ (p : Session × Outcome). p.0.token) (eqb st 409) _ _ refl refl)
  reply-Move signup (thrown e) h = keeps
  reply-Move verify_email (ok body) h =
      credentials-Move w (has_credentials body) i verify_email body rest _ _ h refl refl refl
  reply-Move verify_email (refused st text body) h = keeps
  reply-Move verify_email (thrown e) h = keeps
  reply-Move resend_verification r h = keeps
  reply-Move fetch_me (ok body) h = keeps
  reply-Move fetch_me (refused st text body) h = elim (Bool-cases (eqb st 401)) [
    | inl yes_401 ↦ rw yes_401 (rejected h yes_401)
    | inr other ↦ rw other keeps
  ]
  reply-Move fetch_me (thrown e) h = keeps
  reply-Move dismiss_onboarding r h = keeps
  reply-Move complete_tour r h = keeps
  reply-Move update_profile (ok body) h = signs_in h refl
  reply-Move update_profile (refused st text body) h = keeps
  reply-Move update_profile (thrown e) h = keeps
  reply-Move upload_avatar (ok body) h = signs_in h refl
  reply-Move upload_avatar (refused st text body) h = keeps
  reply-Move upload_avatar (thrown e) h = keeps
  reply-Move remove_avatar (ok body) h = signs_in h refl
  reply-Move remove_avatar (refused st text body) h = keeps
  reply-Move remove_avatar (thrown e) h = keeps
  reply-Move delete_account (ok body) h = deleted h
  reply-Move delete_account (refused st text body) h =
      keeps_at w _ (if-both (λ (p : Session × Outcome). p.0.token) (eqb st 409) _ _ refl refl)
  reply-Move delete_account (thrown e) h = keeps
  reply-Move request_email_change (ok body) h = keeps_at w _ (fetch_me_call-token w _)
  reply-Move request_email_change (refused st text body) h = keeps
  reply-Move request_email_change (thrown e) h = keeps
  reply-Move confirm_email_change (ok body) h =
      credentials-Move w (has_credentials body) i confirm_email_change body rest _ _ h refl refl
        refl
  reply-Move confirm_email_change (refused st text body) h = keeps
  reply-Move confirm_email_change (thrown e) h = keeps

-- Whatever happens, in whatever order the replies come, the token changes only as the session
-- promises: no reply but to a request that gives a token signs anyone in.
pub step-Move :
    (parse_base64 : String → Option Fields) (e : Event) (w : World)
    → Move w e (step parse_base64 e w).0.session.token
unfolding step
step-Move parse_base64 (called c) w = call-Move parse_base64 c w
step-Move parse_base64 (replied i r) w = elim (Option-cases (take_request i w.pending)) [
  | inl e ↦ rw (e, step) keeps
  | inr ((q, rest), e) ↦ rw (e, step) (reply-Move w i rest q r e)
]
