-- ===== src/Helpers/Capture.antt =====
-- The result of the public forms: `postCapture` of apps/web/app/lib/capture.ts.
use whiparc.Prelude.{
  ℕ, String, ◌≡◌, refl, inl, inr, Bool, true, false, not, Option, none, some, ◌==◌, eqb,
  if◌then◌else◌, Bool-cases,
}
use whiparc.Canvas.Json.{Value, str, obj, Fields, end, lookup}

-- What comes of `fetch`: an error, `aborted` when its name is AbortError, or a response with its status
-- and what its body parses to.
pub data Fetched : Type 0 where
  aborted thrown : Fetched
  responded : (ok : Bool) (status : ℕ) (body : Option Value) → Fetched

pub data CaptureResult : Type 0 where
  captured : (message : String) (content : Fields) → CaptureResult
  rejected : (message : String) (status : Option ℕ) → CaptureResult

abbrev generic_error : String
generic_error = "Something went wrong. Please try again."

abbrev network_error : String
network_error = "Couldn't reach the server. Check your connection and try again."

-- `data`; an array has none of the keys that are read.
unfoldable pub content_of_body : Option Value → Fields
content_of_body (some (obj fs)) = fs
content_of_body _ = end

-- `typeof data[key] === 'string' ? data[key] : ''`
unfoldable pub message_at : String → Fields → String
unfolding lookup
message_at key fs = elim (lookup key fs) [ some (str s) ↦ s | _ ↦ "" ]

-- The message of a response that is not ok
unfoldable pub failure_message : ℕ → String → String
failure_message status server_message =
    if not (server_message == "")
    then server_message
    else if eqb status 429
    then "Too many requests. Please try again in a little while."
    else generic_error

unfoldable pub post_capture : Fetched → CaptureResult
unfolding content_of_body message_at failure_message
post_capture aborted = rejected "" none
post_capture thrown = rejected network_error none
post_capture (responded ok status body) =
    let content = content_of_body body in
    if ok
    then captured (message_at "message" content) content
    else rejected (failure_message status (message_at "error" content)) (some status)

unfoldable pub is_aborted : Fetched → Bool
is_aborted aborted = true
is_aborted _ = false

unfoldable pub is_accepted : Fetched → Bool
is_accepted (responded ok status body) = ok
is_accepted _ = false

unfoldable pub is_captured : CaptureResult → Bool
is_captured (captured message content) = true
is_captured _ = false

-- A failure with nothing to tell the user
unfoldable pub is_silent : CaptureResult → Bool
is_silent (captured message content) = false
is_silent (rejected message status) = message == ""

failure_message-shown : (status : ℕ) (m : String) → (failure_message status m == "") ≡ false
unfolding failure_message
failure_message-shown status m = elim (Bool-cases (m == "")) [
  | inr told ↦ rw told told
  | inl untold ↦
      rw untold
        (elim (Bool-cases (eqb status 429)) [ inl many ↦ rw many refl | inr other ↦ rw other refl ])
]

-- A form succeeds exactly when the server accepts it, and its failure has a message for the user
-- exactly when the request was not aborted.
post_capture-told :
    (f : Fetched)
    → (is_captured (post_capture f) ≡ is_accepted f) × (is_silent (post_capture f) ≡ is_aborted f)
unfolding post_capture is_captured is_accepted is_silent is_aborted
post_capture-told aborted = (refl, refl)
post_capture-told thrown = (refl, refl)
post_capture-told (responded true status body) = (refl, refl)
post_capture-told (responded false status body) =
    (refl, failure_message-shown status (message_at "error" (content_of_body body)))
