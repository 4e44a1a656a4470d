-- ===== src/Session/Claims.antt =====
-- `decodeTokenClaims` of apps/web/app/store/useAuthStore.ts: the user that a token names.
use Prim.Native.Char.{code}
use whiparc.Prelude.{false, String, Option, none, some, List, [], ◌∷◌, if◌then◌else◌, eqb}
use whiparc.Prelude.Text.{split}
use whiparc.Canvas.Json.{str, bool, Fields, end, field, lookup}
use whiparc.Session.Replies.{with_field, nullish}

-- `payload.replace(/-/g, '+').replace(/_/g, '/')`
unfoldable pub base64_of : String → String
base64_of String.[] = String.[]
base64_of (String.◌∷◌ c s) =
    String.◌∷◌ (if eqb (code c) b'-' then "+" else if eqb (code c) b'_' then "/" else c)
      (base64_of s)

-- `token.split('.')[1]`
unfoldable pub payload_of : List String → Option String
payload_of [] = none
payload_of (a ∷ []) = none
payload_of (a ∷ b ∷ parts) = some b

-- The user with these claims.
unfoldable pub claimed_user : Fields → Fields
unfolding lookup with_field nullish
claimed_user claims = with_field "id" (lookup "id" claims) (
    with_field "email" (lookup "email" claims) (
      with_field "name" (lookup "name" claims) (
        field "plan" (str "") (
          with_field "email_verified" (nullish (lookup "email_verified" claims) (some (bool false)))
            (field "onboarding_dismissed" (bool false)
              (field "avatar_url" (str "") (field "pending_email" (str "") end)))))))

-- The browser's `atob`, `decodeURIComponent` and `JSON.parse`, one after the other: none if one throws.
module _ (parse_base64 : String → Option Fields) where
  unfoldable pub decode_token_claims : String → Option Fields
  unfolding split base64_of payload_of claimed_user
  decode_token_claims token = elim (payload_of (split b'.' token)) [
    | none ↦ none
    | some payload ↦ elim (parse_base64 (base64_of payload)) [
      | none ↦ none
      | some claims ↦ some (claimed_user claims)
    ]
  ]
