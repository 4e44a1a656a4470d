-- ===== src/Redirect/Examples.antt =====
-- Sign-ins that resume the use of a template.
use whiparc.Prelude.{String, ◌≡◌, refl, Option, some}
use whiparc.Redirect.{resolve_post_auth_path, IsLocal, resolve_post_auth_path-IsLocal}

abbrev reply : String → Option String
reply id = some "project-9"

resumes_template :
    resolve_post_auth_path reply (some "/templates/web-1") ≡ "/workspace?project=project-9"
unfolding resolve_post_auth_path
resumes_template = refl

rejects_other_site : resolve_post_auth_path reply (some "//evil.example") ≡ "/dashboard"
unfolding resolve_post_auth_path
rejects_other_site = refl

resolve_post_auth_path-IsLocal_example :
    IsLocal (resolve_post_auth_path reply (some "/templates/web-1"))
resolve_post_auth_path-IsLocal_example =
    resolve_post_auth_path-IsLocal reply (some "/templates/web-1")
