-- ===== src/Session/Races.antt =====
-- Replies that come after the session they were asked for has ended, and the guards of the calls.
use whiparc.Prelude.{
  String, ℕ, ◌≡◌, ◌≢◌, refl, ap, Bool, true, false, Option, none, some, List, [], ◌∷◌, inl, inr,
  ◌⊎◌, is_some,
}
use whiparc.Canvas.Json.{Fields}
use whiparc.Session.{
  Session, Reply, ok, refused, thrown, Outcome, has_token, text_field, object_field,
}
use whiparc.Session.Replies.{
  logout, take_credentials, fail_loading, login_reply, fetch_me_reply, fetched_user,
}
use whiparc.Session.Calls.{
  Request, fetch_me, World, put, fetch_me_call, authorized, prefer, prefer_for, Call, log_in,
  sign_up, verify, resend, refresh, dismiss, complete, set_session, log_out, clear_error, update,
  upload, remove, delete, change_email, confirm_email, set_has_hydrated, rehydrated, call, reply,
  take_request, called, replied, step, run,
}

-- A profile that is asked for before a log out and arrives after it puts the user back into the
-- session, which has no token then.
stale_profile :
    (parse_base64 : String → Option Fields) (w : World) (i : ℕ) (rest : List Request)
    (body : Fields)
    → take_request i w.pending ≡ some (fetch_me, rest)
    → ((run parse_base64 (called log_out ∷ replied i (ok body) ∷ []) w).session.token ≡ none)
      × ((run parse_base64 (called log_out ∷ replied i (ok body) ∷ []) w).session.user
          ≡ some (fetched_user body))
unfolding run step call reply fetch_me_reply logout
stale_profile parse_base64 w i rest body h =
    let after : step parse_base64 (replied i (ok body)) (put (logout w.session) w)
        ≡ reply fetch_me (ok body) (put (logout w.session) (record w { pending = rest })) =
      rw (h, step) refl in
    (
      ap (λ (p : World × Option Outcome). p.0.session.token) after,
      ap (λ (p : World × Option Outcome). p.0.session.user) after,
    )

-- The actions that want a signed-in user.
unfoldable pub wants_token : Call → Bool
wants_token resend = true
wants_token refresh = true
wants_token dismiss = true
wants_token (complete b) = true
wants_token update = true
wants_token upload = true
wants_token remove = true
wants_token delete = true
wants_token change_email = true
wants_token _ = false

prefer_unauthorized :
    (u : Option Fields) (r : Request) (k : String) (w : World)
    → has_token w.session ≡ false
    → (prefer_for u r k w).0 ≡ w
unfolding prefer_for
prefer_unauthorized none r k w h = refl
prefer_unauthorized (some u) r k w h = rw h refl

-- Without a token these actions send no request and change nothing.
call_unauthorized :
    (parse_base64 : String → Option Fields) (c : Call) (w : World)
    → wants_token c ≡ true
    → has_token w.session ≡ false
    → (call parse_base64 c w).0 ≡ w
unfolding call authorized prefer fetch_me_call wants_token
call_unauthorized parse_base64 resend w wants h = rw h refl
call_unauthorized parse_base64 refresh w wants h = rw h refl
call_unauthorized parse_base64 dismiss w wants h = prefer_unauthorized w.session.user _ _ w h
call_unauthorized parse_base64 (complete true) w wants h =
    prefer_unauthorized w.session.user _ _ w h
call_unauthorized parse_base64 (complete false) w wants h =
    prefer_unauthorized w.session.user _ _ w h
call_unauthorized parse_base64 update w wants h = rw h refl
call_unauthorized parse_base64 upload w wants h = rw h refl
call_unauthorized parse_base64 remove w wants h = rw h refl
call_unauthorized parse_base64 delete w wants h = rw h refl
call_unauthorized parse_base64 change_email w wants h = rw h refl
call_unauthorized parse_base64 log_in w wants h = cc
call_unauthorized parse_base64 sign_up w wants h = cc
call_unauthorized parse_base64 verify w wants h = cc
call_unauthorized parse_base64 (set_session t) w wants h = cc
call_unauthorized parse_base64 log_out w wants h = cc
call_unauthorized parse_base64 clear_error w wants h = cc
call_unauthorized parse_base64 confirm_email w wants h = cc
call_unauthorized parse_base64 (set_has_hydrated b) w wants h = cc
call_unauthorized parse_base64 rehydrated w wants h = cc

refused-ok : (status : ℕ) (text : String) (b body : Fields) → refused status text b ≢ ok body
refused-ok status text b body h = cc

thrown-ok : (e : Option String) (body : Fields) → thrown e ≢ ok body
thrown-ok e body h = cc

-- The reply to a login ends the loading. The login succeeds if the API accepts it, and then the
-- session has the token and the user of the reply; if the API does not accept it, the login fails,
-- both stay and there is an error.
pub login_reply-cases :
    (r : Reply) (s : Session)
    → ((login_reply r s).0.is_loading ≡ false)
      × ((((login_reply r s).1.success ≡ true)
            × ((body : Fields) × (r ≡ ok body)
                × ((login_reply r s).0.token ≡ text_field "token" body)
                × ((login_reply r s).0.user ≡ object_field "user" body)))
          ⊎ (((login_reply r s).1.success ≡ false)
              × ((body : Fields) → r ≢ ok body)
              × ((login_reply r s).0.token ≡ s.token)
              × ((login_reply r s).0.user ≡ s.user)
              × (is_some (login_reply r s).0.error ≡ true)))
unfolding login_reply take_credentials fail_loading
login_reply-cases (ok body) s = (refl, inl (refl, (body, refl, refl, refl)))
login_reply-cases (refused st text body) s =
    (refl, inr (refl, refused-ok st text body, refl, refl, refl))
login_reply-cases (thrown e) s = (refl, inr (refl, thrown-ok e, refl, refl, refl))
