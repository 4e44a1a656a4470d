-- ===== src/Session/Busy.antt =====
-- A call or a reply never leaves the session loading with nothing to wait for.
use whiparc.Prelude.{
  String, ℕ, ◌≡◌, refl, sym, ◌∙◌, true, false, Option, none, some, List, [], ◌∷◌, any, arith,
  Option-cases, Bool-cases, inl, inr, eqb,
}
use whiparc.Canvas.Json.{Fields, bool, insert}
use whiparc.Session.{Session, Reply, ok, refused, thrown, Outcome, has_token}
use whiparc.Session.Claims.{decode_token_claims}
use whiparc.Session.Replies.{
  logout, take_credentials, has_credentials, fail_loading, fail_verify, login_reply, signup_reply,
  verify_email_reply, fetch_me_reply, update_profile_reply, avatar_reply, delete_account_reply,
  confirm_email_change_reply,
}
use whiparc.Session.Tokens.{if-both}
use whiparc.Session.Calls.{
  Request, login, signup, verify_email, resend_verification, fetch_me, dismiss_onboarding,
  complete_tour, update_profile, upload_avatar, remove_avatar, delete_account, request_email_change,
  confirm_email_change, World, send, put, fetch_me_call, login_call, authorized, prefer, prefer_for,
  Call, log_in, sign_up, verify, resend, refresh, dismiss, complete, set_session, log_out,
  clear_error, update, upload, remove, delete, change_email, confirm_email, set_has_hydrated,
  rehydrated, set_session_from_token, call, reply, take_request,
}
use whiparc.Session.Pending.{is_awaited, any-append_left, any-append_last, take_request-awaited}

-- While the store says that it is loading, a request that the pages wait for is in flight.
abbrev pub IsBusy : World → Type 0
IsBusy w = w.session.is_loading ≡ true → any is_awaited w.pending ≡ true

send-IsBusy : (r : Request) (w : World) → IsBusy w → IsBusy (send r w)
send-IsBusy r w h loading = any-append_left is_awaited w.pending (r ∷ []) (h loading)

fetch_me_call-IsBusy : (w : World) → IsBusy w → IsBusy (fetch_me_call w)
unfolding fetch_me_call
fetch_me_call-IsBusy w h = elim (Bool-cases (has_token w.session)) [
  | inl t ↦ rw t (send-IsBusy fetch_me w h)
  | inr f ↦ rw f h
]

authorized-IsBusy : (r : Request) (m : String) (w : World) → IsBusy w → IsBusy (authorized r m w).0
unfolding authorized
authorized-IsBusy r m w h = elim (Bool-cases (has_token w.session)) [
  | inl t ↦ rw t (send-IsBusy r w h)
  | inr f ↦ rw f h
]

prefer_for-IsBusy :
    (u : Option Fields) (r : Request) (k : String) (w : World)
    → IsBusy w
    → IsBusy (prefer_for u r k w).0
unfolding prefer_for
prefer_for-IsBusy none r k w h = h
prefer_for-IsBusy (some u) r k w h = elim (Bool-cases (has_token w.session)) [
  | inl t ↦
      rw t (send-IsBusy r (put (record w.session { user = some (insert k (bool true) u) }) w) h)
  | inr f ↦ rw f h
]

prefer-IsBusy : (r : Request) (k : String) (w : World) → IsBusy w → IsBusy (prefer r k w).0
unfolding prefer
prefer-IsBusy r k w h = prefer_for-IsBusy w.session.user r k w h

module _ (parse_base64 : String → Option Fields) where
  set_session-IsBusy :
      (t : String) (w : World) → IsBusy w → IsBusy (set_session_from_token parse_base64 t w).0
  unfolding set_session_from_token
  set_session-IsBusy t w h = elim (Option-cases (decode_token_claims parse_base64 t)) [
    | inl e ↦ rw (e, set_session_from_token) h
    | inr (u, e) ↦
        rw (e, set_session_from_token)
          (fetch_me_call-IsBusy
            (put (record w.session { token = some t; user = some u; error = none }) w) h)
  ]

  pub call-IsBusy : (c : Call) (w : World) → IsBusy w → IsBusy (call parse_base64 c w).0
  unfolding call login_call logout is_awaited
  call-IsBusy log_in w h = λ loading. any-append_last is_awaited w.pending login refl
  call-IsBusy sign_up w h = λ loading. any-append_last is_awaited w.pending signup refl
  call-IsBusy verify w h = λ loading. any-append_last is_awaited w.pending verify_email refl
  call-IsBusy resend w h = authorized-IsBusy _ _ w h
  call-IsBusy refresh w h = fetch_me_call-IsBusy w h
  call-IsBusy dismiss w h = prefer-IsBusy _ _ w h
  call-IsBusy (complete true) w h = prefer-IsBusy _ _ w h
  call-IsBusy (complete false) w h = prefer-IsBusy _ _ w h
  call-IsBusy (set_session t) w h = set_session-IsBusy t w h
  call-IsBusy log_out w h = h
  call-IsBusy clear_error w h = h
  call-IsBusy update w h = authorized-IsBusy _ _ w h
  call-IsBusy upload w h = authorized-IsBusy _ _ w h
  call-IsBusy remove w h = authorized-IsBusy _ _ w h
  call-IsBusy delete w h = authorized-IsBusy _ _ w h
  call-IsBusy change_email w h = authorized-IsBusy _ _ w h
  call-IsBusy confirm_email w h = send-IsBusy confirm_email_change w h
  call-IsBusy (set_has_hydrated b) w h = h
  call-IsBusy rehydrated w h =
      fetch_me_call-IsBusy (put (record w.session { has_hydrated = true }) w) h

IsBusy-idle : (w : World) → w.session.is_loading ≡ false → IsBusy w
IsBusy-idle w idle loading = absurd (ground arith)

-- With the same flag, and with the awaited requests still in flight.
IsBusy-same :
    (w v : World)
    → v.session.is_loading ≡ w.session.is_loading
    → (any is_awaited w.pending ≡ true → any is_awaited v.pending ≡ true)
    → IsBusy w
    → IsBusy v
IsBusy-same w v same kept h loading = kept (h (sym same ∙ loading))

module _ (w : World) (i : ℕ) (rest : List Request) where
  abbrev without : World
  without = record w { pending = rest }

  other-IsBusy :
      (q : Request) (s : Session)
      → take_request i w.pending ≡ some (q, rest)
      → is_awaited q ≡ false
      → s.is_loading ≡ w.session.is_loading
      → IsBusy w
      → IsBusy (put s without)
  other-IsBusy q s at other same h =
      IsBusy-same w (put s without) same (take_request-awaited i w.pending rest q at other) h

  pub reply-IsBusy :
      (q : Request) (r : Reply)
      → take_request i w.pending ≡ some (q, rest)
      → IsBusy w
      → IsBusy (reply q r without).0
  unfolding reply login_reply signup_reply verify_email_reply fail_loading fail_verify login_call
      fetch_me_reply take_credentials logout delete_account_reply update_profile_reply avatar_reply
      confirm_email_change_reply is_awaited
  reply-IsBusy login (ok body) at h =
      let after = put (login_reply (ok body) w.session).0 without in
      fetch_me_call-IsBusy after (IsBusy-idle after refl)
  reply-IsBusy login (refused st text body) at h =
      IsBusy-idle (reply login (refused st text body) without).0 refl
  reply-IsBusy login (thrown e) at h = IsBusy-idle (reply login (thrown e) without).0 refl
  reply-IsBusy signup (ok body) at h = λ loading. any-append_last is_awaited rest login refl
  reply-IsBusy signup (refused st text body) at h =
      IsBusy-idle (reply signup (refused st text body) without).0
        (if-both (λ (p : Session × Outcome). p.0.is_loading) (eqb st 409) _ _ refl refl)
  reply-IsBusy signup (thrown e) at h = IsBusy-idle (reply signup (thrown e) without).0 refl
  reply-IsBusy verify_email (ok body) at h =
      IsBusy-idle (reply verify_email (ok body) without).0
        (if-both (λ (s : Session). s.is_loading) (has_credentials body) _ _ refl refl)
  reply-IsBusy verify_email (refused st text body) at h =
      IsBusy-idle (reply verify_email (refused st text body) without).0 refl
  reply-IsBusy verify_email (thrown e) at h =
      IsBusy-idle (reply verify_email (thrown e) without).0 refl
  reply-IsBusy resend_verification r at h =
      other-IsBusy resend_verification w.session at refl refl h
  reply-IsBusy fetch_me (ok body) at h =
      other-IsBusy fetch_me (reply fetch_me (ok body) without).0.session at refl refl h
  reply-IsBusy fetch_me (refused st text body) at h =
      other-IsBusy fetch_me (reply fetch_me (refused st text body) without).0.session at refl
        (if-both (λ (s : Session). s.is_loading) (eqb st 401) _ _ refl refl) h
  reply-IsBusy fetch_me (thrown e) at h =
      other-IsBusy fetch_me (reply fetch_me (thrown e) without).0.session at refl refl h
  reply-IsBusy dismiss_onboarding r at h = other-IsBusy dismiss_onboarding w.session at refl refl h
  reply-IsBusy complete_tour r at h = other-IsBusy complete_tour w.session at refl refl h
  reply-IsBusy update_profile (ok body) at h =
      other-IsBusy update_profile (reply update_profile (ok body) without).0.session at refl refl h
  reply-IsBusy update_profile (refused st text body) at h =
      other-IsBusy update_profile (reply update_profile (refused st text body) without).0.session at
        refl refl h
  reply-IsBusy update_profile (thrown e) at h =
      other-IsBusy update_profile (reply update_profile (thrown e) without).0.session at refl refl h
  reply-IsBusy upload_avatar (ok body) at h =
      other-IsBusy upload_avatar (reply upload_avatar (ok body) without).0.session at refl refl h
  reply-IsBusy upload_avatar (refused st text body) at h =
      other-IsBusy upload_avatar (reply upload_avatar (refused st text body) without).0.session at
        refl refl h
  reply-IsBusy upload_avatar (thrown e) at h =
      other-IsBusy upload_avatar (reply upload_avatar (thrown e) without).0.session at refl refl h
  reply-IsBusy remove_avatar (ok body) at h =
      other-IsBusy remove_avatar (reply remove_avatar (ok body) without).0.session at refl refl h
  reply-IsBusy remove_avatar (refused st text body) at h =
      other-IsBusy remove_avatar (reply remove_avatar (refused st text body) without).0.session at
        refl refl h
  reply-IsBusy remove_avatar (thrown e) at h =
      other-IsBusy remove_avatar (reply remove_avatar (thrown e) without).0.session at refl refl h
  reply-IsBusy delete_account (ok body) at h =
      other-IsBusy delete_account (reply delete_account (ok body) without).0.session at refl refl h
  reply-IsBusy delete_account (refused st text body) at h =
      other-IsBusy delete_account (reply delete_account (refused st text body) without).0.session at
        refl (if-both (λ (p : Session × Outcome). p.0.is_loading) (eqb st 409) _ _ refl refl) h
  reply-IsBusy delete_account (thrown e) at h =
      other-IsBusy delete_account (reply delete_account (thrown e) without).0.session at refl refl h
  reply-IsBusy request_email_change (ok body) at h =
      fetch_me_call-IsBusy without (other-IsBusy request_email_change w.session at refl refl h)
  reply-IsBusy request_email_change (refused st text body) at h =
      other-IsBusy request_email_change w.session at refl refl h
  reply-IsBusy request_email_change (thrown e) at h =
      other-IsBusy request_email_change w.session at refl refl h
  reply-IsBusy confirm_email_change (ok body) at h =
      other-IsBusy confirm_email_change (reply confirm_email_change (ok body) without).0.session at
        refl (if-both (λ (s : Session). s.is_loading) (has_credentials body) _ _ refl refl) h
  reply-IsBusy confirm_email_change (refused st text body) at h =
      other-IsBusy confirm_email_change
        (reply confirm_email_change (refused st text body) without).0.session at refl refl h
  reply-IsBusy confirm_email_change (thrown e) at h =
      other-IsBusy confirm_email_change (reply confirm_email_change (thrown e) without).0.session at
        refl refl h
