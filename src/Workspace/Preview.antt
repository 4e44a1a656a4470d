-- ===== src/Workspace/Preview.antt =====
-- The preview of a node's files: `getNodeFiles` of apps/web/app/workspace/page.tsx.
pub mod Laws
use whiparc.Prelude.{
  IsUnique-of_distinct, ℕ, zero, suc, ◌+◌, ◌-◌, ◌*◌, ◌/◌, ◌%◌, ◌≤◌, ◌<◌, String, ◌≡◌, refl, sym, ap,
  ◌∙◌, ◌≢◌, ◌↔◌, ◌⊎◌, inl, inr, Bool, true, false, not, ◌&&◌, ◌||◌, Option, none, some, List, [],
  ◌∷◌, ◌++◌, map, arith, ◌==◌, starts_with, eq_iff, length, length-append, first, All, length-map,
  keep, any, find_first, update, count, contains, IsUnique, ltb, leb, eqb, if◌then◌else◌, is_some,
  Bool-cases, Option-cases, List-cases,
}
use whiparc.Prelude.Text.{cat}
use whiparc.Canvas.{Node, Edge, has_tech}
use whiparc.Terraform.{generate_terraform_files}
use whiparc.Bundle.Files.{FileItem, generate_bundle_files}

pub data FileLanguage : Type 0 where
  hcl yaml ini text : FileLanguage

pub record PreviewFile : Type 0 where
  pub name : String
  pub content : String
  pub language : FileLanguage

abbrev preview : String → String → FileLanguage → PreviewFile
preview name content language = record { name = name; content = content; language = language }

-- `files.find(f => f.name === name)?.content ?? ''`
unfoldable pub content_of : String → List FileItem → String
unfolding find_first
content_of name files = elim (find_first (λ (f : FileItem). f.name == name) files) [
  | none ↦ ""
  | some f ↦ f.content
]

unfoldable pub is_group : Node → Bool
is_group n = starts_with n.id "aws_security_group"

unfoldable pub is_machine_or_group : Node → Bool
unfolding is_group
is_machine_or_group n = starts_with n.id "aws_instance.web_server" || is_group n

unfoldable pub terraform_preview : Node → List Node → List Edge → List PreviewFile
unfolding generate_terraform_files is_group
terraform_preview n nodes edges =
    let tf = generate_terraform_files nodes edges in
    let main = preview "main.tf" tf.main_tf hcl in
    if is_group n
    then main ∷ []
    else main
      ∷ preview "variables.tf" tf.variables_tf hcl
      ∷ preview "outputs.tf" tf.outputs_tf hcl
      ∷ []

unfoldable pub no_preview : Node → List PreviewFile
unfolding cat
no_preview n =
    preview (cat (n.id ∷ ".txt" ∷ []))
      (cat ("# " ∷ n.id ∷ "\n# No code preview available for this node type." ∷ [])) text
    ∷ []

module _ (encode : String → String) where
  unfoldable pub get_node_files : Node → List Node → List Edge → List PreviewFile
  unfolding generate_bundle_files terraform_preview is_machine_or_group content_of no_preview
  get_node_files n nodes edges =
      let files = generate_bundle_files encode nodes edges in
      if is_machine_or_group n
      then terraform_preview n nodes edges
      else if has_tech "Ansible" n
      then preview "playbook.yml" (content_of "playbook.yml" files) yaml
        ∷ preview "hosts.ini" (content_of "hosts.ini" files) ini
        ∷ []
      else if has_tech "Kubernetes" n
      then preview "deployment.yaml" (content_of "deployment.yaml" files) yaml ∷ []
      else no_preview n
