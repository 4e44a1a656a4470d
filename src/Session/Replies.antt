-- ===== src/Session/Replies.antt =====
-- What each reply of the API does to the session: the code behind the `await` of each action of
-- apps/web/app/store/useAuthStore.ts.
use whiparc.Prelude.{String, Bool, true, false, Option, none, some, if◌then◌else◌, eqb, ◌==◌, not}
use whiparc.Prelude.Text.{trim}
use whiparc.Canvas.Json.{Value, str, bool, null, Fields, end, field, lookup, truthy?, or_else}
use whiparc.Session.{
  Session, Reply, ok, refused, thrown, Outcome, succeeds, fails, text_field, object_field,
  text_else, message_else, network_error_message, error_message,
}

abbrev pub returns : Bool → Outcome
returns b = record { success = b; message = none; error = none; extra = none }

abbrev pub says : String → Outcome
says m = record { success = true; message = some m; error = none; extra = none }

-- `set({ token: null, user: null, error: null })`
unfoldable pub logout : Session → Session
logout s = record s { token = none; user = none; error = none }

-- `set({ token: data.token, user: data.user })`
unfoldable pub take_credentials : Fields → Session → Session
unfolding text_field object_field
take_credentials body s = record s {
  token = text_field "token" body;
  user = object_field "user" body;
}

-- `data.token && data.user`
unfoldable pub has_credentials : Fields → Bool
unfolding text_field object_field
has_credentials body = elim (text_field "token" body) [
  | none ↦ false
  | some t ↦ elim (object_field "user" body) [ none ↦ false | some u ↦ not (t == "") ]
]

-- The `catch` of `login` and `signup`.
unfoldable pub fail_loading : Option String → String → Session → Session × Outcome
unfolding network_error_message
fail_loading err fallback s = (
  record s { error = some (network_error_message err fallback); is_loading = false },
  returns false,
)

unfoldable pub login_reply : Reply → Session → Session × Outcome
unfolding take_credentials fail_loading text_else
login_reply (ok body) s = (record (take_credentials body s) { is_loading = false }, returns true)
login_reply (refused status text body) s =
    fail_loading (some (text_else text "Invalid credentials")) "Login failed" s
login_reply (thrown err) s = fail_loading err "Login failed" s

-- A reply that is `ok` is followed by a call of `login`, which gives the result.
unfoldable pub signup_reply : Reply → Session → Session × Outcome
unfolding fail_loading text_else
signup_reply (ok body) s = (record s { is_loading = false }, returns true)
signup_reply (refused status text body) s =
    if eqb status 409
    then (record s { is_loading = false; signup_email_exists = true }, returns false)
    else fail_loading (some (text_else text "Signup failed")) "Signup failed" s
signup_reply (thrown err) s = fail_loading err "Signup failed" s

-- The `catch` of `verifyEmail`.
unfoldable pub fail_verify : String → Session → Session × Outcome
fail_verify msg s = (record s { is_loading = false; error = some msg }, fails msg)

unfoldable pub verify_email_reply : Reply → Session → Session × Outcome
unfolding has_credentials take_credentials message_else text_field text_else error_message
    fail_verify
verify_email_reply (ok body) s = (
  if has_credentials body
      then record (take_credentials body s) { is_loading = false }
      else record s { is_loading = false },
  says (message_else (text_field "message" body) "Email verified successfully"),
)
verify_email_reply (refused status text body) s =
    fail_verify (text_else text "Verification failed") s
verify_email_reply (thrown err) s = fail_verify (error_message err "Verification failed") s

unfoldable pub resend_verification_reply : Reply → Outcome
unfolding message_else text_field text_else error_message
resend_verification_reply (ok body) =
    says (message_else (text_field "message" body) "Verification link sent")
resend_verification_reply (refused status text body) =
    fails (text_else text "Failed to resend verification email")
resend_verification_reply (thrown err) =
    fails (error_message err "Failed to resend verification link")

-- `data.user?.key`
unfoldable pub nested_field : String → Fields → Option Value
unfolding object_field lookup
nested_field key body = elim (object_field "user" body) [ none ↦ none | some u ↦ lookup key u ]

-- `data.key || data.user?.key`
unfoldable pub either_field : String → Fields → Option Value
unfolding lookup or_else nested_field
either_field key body = or_else (lookup key body) (nested_field key body)

-- `a ?? b`
unfoldable pub nullish : Option Value → Option Value → Option Value
nullish none b = b
nullish (some null) b = b
nullish (some v) b = some v

-- `Boolean(data.key ?? data.user?.key)`
unfoldable pub either_flag : String → Fields → Value
unfolding lookup nested_field nullish truthy?
either_flag key body = bool (truthy? (nullish (lookup key body) (nested_field key body)))

-- A property whose value may be undefined, which reads as if it were not there.
unfoldable pub with_field : String → Option Value → Fields → Fields
with_field key none fs = fs
with_field key (some v) fs = field key v fs

-- `fetchedUser`
unfoldable pub fetched_user : Fields → Fields
unfolding either_field either_flag with_field or_else
fetched_user body = with_field "id" (either_field "id" body) (
    with_field "email" (either_field "email" body) (
      with_field "name" (either_field "name" body) (
        with_field "plan" (or_else (either_field "plan" body) (some (str "FREE"))) (
          field "email_verified" (either_flag "email_verified" body) (
            field "onboarding_dismissed" (either_flag "onboarding_dismissed" body) (
              field "tour_completed" (either_flag "tour_completed" body) (
                field "workspace_tour_completed" (either_flag "workspace_tour_completed" body) (
                  with_field "avatar_url" (or_else (either_field "avatar_url" body) (some (str "")))
                    (with_field "pending_email"
                      (or_else (either_field "pending_email" body) (some (str ""))) end)))))))))

unfoldable pub fetch_me_reply : Reply → Session → Session
unfolding fetched_user logout
fetch_me_reply (ok body) s = record s { user = some (fetched_user body) }
fetch_me_reply (refused status text body) s = if eqb status 401 then logout s else s
fetch_me_reply (thrown err) s = s

unfoldable pub update_profile_reply : Reply → Session → Session × Outcome
unfolding take_credentials text_else error_message
update_profile_reply (ok body) s = (take_credentials body s, succeeds)
update_profile_reply (refused status text body) s =
    (s, fails (text_else text "Failed to update profile"))
update_profile_reply (thrown err) s = (s, fails (error_message err "Failed to update profile"))

-- `uploadAvatar` and `removeAvatar`, which differ in the message.
unfoldable pub avatar_reply : String → Reply → Session → Session × Outcome
unfolding take_credentials text_else network_error_message trim
avatar_reply fallback (ok body) s = (take_credentials body s, succeeds)
avatar_reply fallback (refused status text body) s =
    (s, fails (network_error_message (some (text_else (trim text) fallback)) fallback))
avatar_reply fallback (thrown err) s = (s, fails (network_error_message err fallback))

unfoldable pub delete_account_reply : Reply → Session → Session × Outcome
unfolding logout text_else network_error_message text_field trim lookup
delete_account_reply (ok body) s = (logout s, succeeds)
delete_account_reply (refused status text body) s =
    if eqb status 409
    then (
      s,
      record {
        success = false;
        message = none;
        error = text_field "error" body;
        extra = lookup "blockers" body;
      },
    )
    else (
      s,
      fails (
          network_error_message (some (text_else (trim text) "Failed to delete account"))
            "Failed to delete account"),
    )
delete_account_reply (thrown err) s =
    (s, fails (network_error_message err "Failed to delete account"))

unfoldable pub request_email_change_reply : Reply → Outcome
unfolding text_field text_else error_message
request_email_change_reply (ok body) = record {
  success = true;
  message = text_field "message" body;
  error = none;
  extra = none;
}
request_email_change_reply (refused status text body) =
    fails (text_else text "Failed to request an email change")
request_email_change_reply (thrown err) =
    fails (error_message err "Failed to request an email change")

unfoldable pub confirm_email_change_reply : Reply → Session → Session × Outcome
unfolding has_credentials take_credentials text_else error_message nested_field
confirm_email_change_reply (ok body) s = (
  if has_credentials body then take_credentials body s else s,
  record { success = true; message = none; error = none; extra = nested_field "email" body },
)
confirm_email_change_reply (refused status text body) s =
    (s, fails (text_else text "Failed to confirm the email change"))
confirm_email_change_reply (thrown err) s =
    (s, fails (error_message err "Failed to confirm the email change"))
