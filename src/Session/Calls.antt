-- ===== src/Session/Calls.antt =====
-- The actions of apps/web/app/store/useAuthStore.ts as calls and replies: a call runs up to its
-- `await`, which leaves a request in flight; the reply comes at any later time, and other calls and
-- replies may come before it.
use whiparc.Prelude.{
  String, ℕ, zero, suc, Bool, true, false, Option, none, some, List, [], ◌∷◌, ◌++◌, if◌then◌else◌,
}
use whiparc.Canvas.Json.{bool, Fields, insert}
use whiparc.Session.{Session, Reply, ok, Outcome, fails, has_token}
use whiparc.Session.Claims.{decode_token_claims}
use whiparc.Session.Replies.{
  returns, logout, login_reply, signup_reply, verify_email_reply, resend_verification_reply,
  fetch_me_reply, update_profile_reply, avatar_reply, delete_account_reply,
  request_email_change_reply, confirm_email_change_reply,
}

-- The requests, each named for its action.
pub data Request : Type 0 where
  login signup verify_email resend_verification fetch_me dismiss_onboarding complete_tour : Request
  update_profile upload_avatar remove_avatar delete_account : Request
  request_email_change confirm_email_change : Request

-- The store and the requests in flight, oldest first.
pub record World : Type 0 where
  pub session : Session
  pub pending : List Request

abbrev pub send : Request → World → World
send r w = record w { pending = w.pending ++ r ∷ [] }

-- `set`
abbrev pub put : Session → World → World
put s w = record w { session = s }

-- `fetchMe()`, up to its reply
unfoldable pub fetch_me_call : World → World
unfolding has_token
fetch_me_call w = if has_token w.session then send fetch_me w else w

-- `login(…)`, up to its reply
unfoldable pub login_call : World → World
login_call w = send login (put (record w.session { is_loading = true; error = none }) w)

-- A request that wants a token fails at once without one.
unfoldable pub authorized : Request → String → World → World × Option Outcome
unfolding has_token
authorized r message w = if has_token w.session then (send r w, none) else (w, some (fails message))

-- A preference of the user that is set before the request is sent.
unfoldable pub prefer_for : Option Fields → Request → String → World → World × Option Outcome
unfolding has_token insert
prefer_for none r key w = (w, none)
prefer_for (some u) r key w =
    if has_token w.session
    then (send r (put (record w.session { user = some (insert key (bool true) u) }) w), none)
    else (w, none)

unfoldable pub prefer : Request → String → World → World × Option Outcome
unfolding prefer_for
prefer r key w = prefer_for w.session.user r key w

-- The actions of the store.
pub data Call : Type 0 where
  log_in sign_up verify resend refresh dismiss : Call
  complete : (workspace : Bool) → Call
  set_session : (token : String) → Call
  log_out clear_error : Call
  update upload remove delete change_email confirm_email : Call
  set_has_hydrated : Bool → Call
  rehydrated : Call

module _ (parse_base64 : String → Option Fields) where
  -- `setSessionFromToken`
  unfoldable pub set_session_from_token : String → World → World × Option Outcome
  unfolding decode_token_claims fetch_me_call
  set_session_from_token token w = elim (decode_token_claims parse_base64 token) [
    | none ↦ (w, some (returns false))
    | some u ↦ (
      fetch_me_call (put (record w.session { token = some token; user = some u; error = none }) w),
      some (returns true),
    )
  ]

  unfoldable pub call : Call → World → World × Option Outcome
  unfolding set_session_from_token fetch_me_call login_call authorized prefer logout
  call log_in w = (login_call w, none)
  call sign_up w = (
    send signup
        (put (record w.session { is_loading = true; error = none; signup_email_exists = false }) w),
    none,
  )
  call verify w =
      (send verify_email (put (record w.session { is_loading = true; error = none }) w), none)
  call resend w =
      authorized resend_verification "Please sign in first to request a verification link." w
  call refresh w = (fetch_me_call w, none)
  call dismiss w = prefer dismiss_onboarding "onboarding_dismissed" w
  call (complete true) w = prefer complete_tour "workspace_tour_completed" w
  call (complete false) w = prefer complete_tour "tour_completed" w
  call (set_session token) w = set_session_from_token token w
  call log_out w = (put (logout w.session) w, none)
  call clear_error w =
      (put (record w.session { error = none; signup_email_exists = false }) w, none)
  call update w = authorized update_profile "Please sign in first." w
  call upload w = authorized upload_avatar "Please sign in first." w
  call remove w = authorized remove_avatar "Please sign in first." w
  call delete w = authorized delete_account "Please sign in first." w
  call change_email w = authorized request_email_change "Please sign in first." w
  call confirm_email w = (send confirm_email_change w, none)
  call (set_has_hydrated b) w = (put (record w.session { has_hydrated = b }) w, none)
  call rehydrated w = (fetch_me_call (put (record w.session { has_hydrated = true }) w), none)

-- What an action does with its reply; `w` is the world without the request.
abbrev pub settle : World → Session × Outcome → World × Option Outcome
settle w (s, o) = (put s w, some o)

unfoldable pub reply : Request → Reply → World → World × Option Outcome
unfolding login_reply signup_reply verify_email_reply resend_verification_reply fetch_me_reply
    update_profile_reply avatar_reply delete_account_reply request_email_change_reply
    confirm_email_change_reply fetch_me_call login_call
reply login (ok body) w =
    let (after, o) = settle w (login_reply (ok body) w.session) in (fetch_me_call after, o)
reply login r w = settle w (login_reply r w.session)
reply signup (ok body) w = (login_call (put (signup_reply (ok body) w.session).0 w), none)
reply signup r w = settle w (signup_reply r w.session)
reply verify_email r w = settle w (verify_email_reply r w.session)
reply resend_verification r w = (w, some (resend_verification_reply r))
reply fetch_me r w = (put (fetch_me_reply r w.session) w, none)
reply dismiss_onboarding r w = (w, none)
reply complete_tour r w = (w, none)
reply update_profile r w = settle w (update_profile_reply r w.session)
reply upload_avatar r w = settle w (avatar_reply "Failed to upload avatar" r w.session)
reply remove_avatar r w = settle w (avatar_reply "Failed to remove avatar" r w.session)
reply delete_account r w = settle w (delete_account_reply r w.session)
reply request_email_change (ok body) w =
    (fetch_me_call w, some (request_email_change_reply (ok body)))
reply request_email_change r w = (w, some (request_email_change_reply r))
reply confirm_email_change r w = settle w (confirm_email_change_reply r w.session)

-- Takes the request at a place out of those in flight.
unfoldable pub take_request : ℕ → List Request → Option (Request × List Request)
take_request i [] = none
take_request zero (r ∷ rs) = some (r, rs)
take_request (suc i) (r ∷ rs) = elim (take_request i rs) [
  | none ↦ none
  | some (q, qs) ↦ some (q, r ∷ qs)
]

-- What happens to the store: a call, or the reply to a request in flight.
pub data Event : Type 0 where
  called : Call → Event
  replied : ℕ → Reply → Event

module _ (parse_base64 : String → Option Fields) where
  unfoldable pub step : Event → World → World × Option Outcome
  unfolding call reply take_request
  step (called c) w = call parse_base64 c w
  step (replied i r) w = elim (take_request i w.pending) [
    | none ↦ (w, none)
    | some (q, rest) ↦ reply q r (record w { pending = rest })
  ]

  unfoldable pub run : List Event → World → World
  unfolding step
  run [] w = w
  run (e ∷ es) w = run es (step e w).0
