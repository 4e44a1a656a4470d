-- ===== src/Redirect.antt =====
-- Where a sign-in leads: apps/web/app/lib/oauthRedirect.ts. What the API replies to a use of a
-- template is a parameter: the project's id, or none when the request fails.
mod Examples
use Prim.Native.String
use Prim.Native.String.{◌++◌}
use whiparc.Prelude.{
  ℕ, String, ◌≡◌, refl, inl, inr, Bool-cases, Option-cases, arith, Bool, true, false, not, ◌&&◌,
  ◌||◌, Option, none, some, ◌==◌, eqb, if◌then◌else◌,
}
use whiparc.Prelude.Text.{includes}
use whiparc.Playbook.Vars.Replace.{begins-append}
use whiparc.Playbook.Vars.{is_word, begins, drop, span}

-- `isSafeRedirectPath`
unfoldable pub is_safe_redirect_path : Option String → Bool
unfolding begins includes
is_safe_redirect_path none = false
is_safe_redirect_path (some path) =
    begins path "/" && not (begins path "//" || begins path "/\\") && not (includes path "://")

-- `[\w-]`
unfoldable pub is_id_char : ℕ → Bool
unfolding is_word
is_id_char c = is_word c || eqb c b'-'

-- `redirect.match(/^\/templates\/([\w-]+)$/)`: the id.
unfoldable pub template_id : String → Option String
unfolding begins drop span is_id_char
template_id path =
    let (id, rest) = span is_id_char (drop 11 path) in
    if begins path "/templates/" && not (id == "") && rest == "" then some id else none

-- The workspace page of the project that a template became, or the template's own page.
unfoldable pub after_use : String → Option String → String
after_use redirect none = redirect
after_use redirect (some project) = "/workspace?project=" ++ project

module _ (use_template : String → Option String) where
  -- `resolvePostAuthPath` at a safe redirect.
  unfoldable pub safe_path : String → String
  unfolding template_id after_use
  safe_path redirect = elim (template_id redirect) [
    | some id ↦ after_use redirect (use_template id)
    | none ↦ redirect
  ]

  -- `resolvePostAuthPath`
  unfoldable pub resolve_post_auth_path : Option String → String
  unfolding is_safe_redirect_path safe_path
  resolve_post_auth_path none = "/dashboard"
  resolve_post_auth_path (some redirect) =
      if is_safe_redirect_path (some redirect) then safe_path redirect else "/dashboard"

-- A path of the site itself: one slash, and neither a second one nor a backslash behind it.
pub IsLocal : String → Type 0
IsLocal path = (begins path "/" ≡ true) × (begins path "//" ≡ false) × (begins path "/\\" ≡ false)

is_safe_redirect_path-IsLocal :
    (path : String) → is_safe_redirect_path (some path) ≡ true → IsLocal path
unfolding is_safe_redirect_path IsLocal
is_safe_redirect_path-IsLocal path h = (ground arith, ground arith, ground arith)

after_use-IsLocal :
    (redirect : String) (reply : Option String)
    → IsLocal redirect
    → IsLocal (after_use redirect reply)
unfolding after_use IsLocal begins
after_use-IsLocal redirect none h = h
after_use-IsLocal redirect (some project) h =
    let page : String = "/workspace?project=" in
    (
      begins-append page project "/" (omega arith),
      begins-append page project "//" (omega arith),
      begins-append page project "/\\" (omega arith),
    )

safe_path-IsLocal :
    (use_template : String → Option String) (redirect : String)
    → IsLocal redirect
    → IsLocal (safe_path use_template redirect)
unfolding safe_path
safe_path-IsLocal use_template redirect h = elim (Option-cases (template_id redirect)) [
  | inl no_id ↦ rw (no_id, safe_path) h
  | inr (id, found) ↦ rw (found, safe_path) (after_use-IsLocal redirect (use_template id) h)
]

-- A sign-in never leads off the site: whatever redirect the link names and whatever the API replies,
-- the path begins with one slash, and no second slash or backslash follows it.
pub resolve_post_auth_path-IsLocal :
    (use_template : String → Option String) (redirect : Option String)
    → IsLocal (resolve_post_auth_path use_template redirect)
unfolding resolve_post_auth_path IsLocal begins
resolve_post_auth_path-IsLocal use_template none = (refl, refl, refl)
resolve_post_auth_path-IsLocal use_template (some redirect) =
    elim (Bool-cases (is_safe_redirect_path (some redirect))) [
      | inl safe ↦
          rw safe
            (safe_path-IsLocal use_template redirect (is_safe_redirect_path-IsLocal redirect safe))
      | inr unsafe ↦ rw unsafe (refl, refl, refl)
    ]
