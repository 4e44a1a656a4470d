-- ===== src/Session.antt =====
-- The session store, apps/web/app/store/useAuthStore.ts: its state, and what each reply of the API
-- does to it. A user is the JSON object that the API sends. `Session/Calls` has the calls, which
-- send the requests.
pub mod Claims
pub mod Replies
pub mod Calls
pub mod Tokens
pub mod Pending
pub mod Busy
pub mod Loading
pub mod Races
mod Examples
use whiparc.Prelude.{
  String, Bool, true, false, not, ◌||◌, Option, none, some, ◌==◌, if◌then◌else◌, ℕ, eqb,
}
use whiparc.Prelude.Text.{includes}
use whiparc.Canvas.Json.{
  Value, str, bool, obj, null, Fields, end, field, lookup, insert, truthy?, or_else,
}

-- `AuthState`, without its actions. What is `null` or `undefined` is `none`.
pub record Session : Type 0 where
  pub token : Option String
  pub user : Option Fields
  pub is_loading : Bool
  pub error : Option String
  pub signup_email_exists : Bool
  pub has_hydrated : Bool

abbrev pub initial : Session
initial = record {
  token = none;
  user = none;
  is_loading = false;
  error = none;
  signup_email_exists = false;
  has_hydrated = false;
}

-- What the API answers. `thrown` is a request or a body that failed, with the message if what was
-- thrown is an `Error`; `refused` has the status and the body, as a text and as JSON.
pub data Reply : Type 0 where
  ok : Fields → Reply
  refused : ℕ → String → Fields → Reply
  thrown : Option String → Reply

-- What an action returns; the actions that return a Boolean return `success`.
pub record Outcome : Type 0 where
  pub success : Bool
  pub message : Option String
  pub error : Option String
  pub extra : Option Value

abbrev pub succeeds : Outcome
succeeds = record { success = true; message = none; error = none; extra = none }

abbrev pub fails : String → Outcome
fails e = record { success = false; message = none; error = some e; extra = none }

-- A field that is declared as a text.
unfoldable pub text_field : String → Fields → Option String
unfolding lookup
text_field key body = elim (lookup key body) [ some (str s) ↦ some s | _ ↦ none ]

-- A field that is declared as an object.
unfoldable pub object_field : String → Fields → Option Fields
unfolding lookup
object_field key body = elim (lookup key body) [ some (obj fs) ↦ some fs | _ ↦ none ]

-- `s || fallback`
unfoldable pub text_else : String → String → String
text_else s fallback = if s == "" then fallback else s

-- `data.message || fallback`
unfoldable pub message_else : Option String → String → String
unfolding text_else
message_else none fallback = fallback
message_else (some m) fallback = text_else m fallback

-- `if (!token)`
unfoldable pub has_token : Session → Bool
has_token s = elim s.token [ none ↦ false | some t ↦ not (t == "") ]

-- `networkErrorMessage`
unfoldable pub network_error_message : Option String → String → String
unfolding message_else includes
network_error_message err fallback =
    let msg = message_else err fallback in
    if msg == "Failed to fetch" || includes msg "fetch failed" || includes msg "NetworkError"
    then "Cannot connect to the backend server. Please verify the API service is running and try again."
    else msg

-- `err instanceof Error ? err.message : fallback`
unfoldable pub error_message : Option String → String → String
error_message none fallback = fallback
error_message (some m) fallback = m
