-- ===== src/Helpers/Avatar.antt =====
-- Avatars: apps/web/app/lib/avatar.ts. The API's address is a parameter.
use whiparc.Prelude.{
  ℕ, String, ◌≡◌, refl, Bool, true, false, ◌&&◌, ◌||◌, Option, none, some, List, [], ◌∷◌, leb, eqb,
  if◌then◌else◌,
}
use Prim.Native.Char.{code}
use Prim.Native.String.{count as chars}
use whiparc.Prelude.Text.{cat}
use whiparc.Playbook.Vars.{begins, drop}

-- `[0-9a-f]`
unfoldable pub is_hex : ℕ → Bool
is_hex c = (leb b'0' c && leb c b'9') || (leb b'a' c && leb c b'f')

unfoldable pub is_all_hex : String → Bool
unfolding is_hex
is_all_hex String.[] = true
is_all_hex (String.◌∷◌ c s) = is_hex (code c) && is_all_hex s

-- `AVATAR_PATH`
unfoldable pub is_avatar_path : String → Bool
unfolding is_all_hex begins drop
is_avatar_path url =
    let key = drop 13 url in begins url "/api/avatars/" && eqb (chars key) 32 && is_all_hex key

unfoldable pub resolve_avatar_url : String → Option String → String
unfolding is_avatar_path cat
resolve_avatar_url api_url none = ""
resolve_avatar_url api_url (some url) = if is_avatar_path url then cat (api_url ∷ url ∷ []) else ""

pub data ImageType : Type 0 where
  png jpeg : ImageType

-- The bytes of a file begin with these.
unfoldable pub begins_with : List ℕ → List ℕ → Bool
begins_with head [] = true
begins_with [] (b ∷ bs) = false
begins_with (h ∷ hs) (b ∷ bs) = eqb h b && begins_with hs bs

-- `sniffAvatarType`, of the first eight bytes
unfoldable pub sniff_avatar_type : List ℕ → Option ImageType
unfolding begins_with
sniff_avatar_type head =
    if begins_with head (0x89 ∷ 0x50 ∷ 0x4e ∷ 0x47 ∷ 0x0d ∷ 0x0a ∷ 0x1a ∷ 0x0a ∷ [])
    then some png
    else if begins_with head (0xff ∷ 0xd8 ∷ 0xff ∷ [])
    then some jpeg
    else none

avatar_tests :
    (resolve_avatar_url "https://api" (some "/api/avatars/0123456789abcdef0123456789abcdef")
      ≡ "https://api/api/avatars/0123456789abcdef0123456789abcdef")
    × (resolve_avatar_url "https://api" (some "https://evil/api/avatars/0") ≡ "")
    × (sniff_avatar_type (0xff ∷ 0xd8 ∷ 0xff ∷ 0xe0 ∷ []) ≡ some jpeg)
unfolding resolve_avatar_url sniff_avatar_type
avatar_tests = (refl, refl, refl)
