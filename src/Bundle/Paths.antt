-- ===== src/Bundle/Paths.antt =====
-- The paths of the files of the bundle.
use whiparc.Prelude.{
  String, Bool, true, false, ◌||◌, List, [], ◌∷◌, ◌++◌ as ◌+++◌, map, any, contains, IsUnique,
  IsUnique-of_distinct, if◌then◌else◌, ◌≡◌, refl,
}
use whiparc.Canvas.{Node, Edge, has_tech}
use whiparc.Bundle.Hosts.{is_ansible}
use whiparc.Bundle.Files.{
  FileItem, terraform_items, ansible_items, kubernetes_items, readme, file, generate_bundle_files,
}

abbrev pub paths : List FileItem → List String
paths fs = map (λ (f : FileItem). f.path) fs

module _ (encode : String → String) (nodes : List Node) (edges : List Edge) where
  -- The bundle of a canvas with these technologies.
  abbrev pub items_of : Bool → Bool → Bool → List FileItem
  items_of terraform ansible kubernetes =
      (if terraform then terraform_items nodes edges else [])
      +++ ((if ansible then ansible_items nodes edges else [])
          +++ ((if kubernetes then kubernetes_items encode nodes else [])
              +++ file "README.md" "README.md" "Markdown" "lucide:file" "text-muted-foreground"
                  (readme terraform ansible kubernetes)
                ∷ []))

  items_of-IsUnique : (t a k : Bool) → IsUnique (paths (items_of t a k))
  unfolding terraform_items ansible_items kubernetes_items
  items_of-IsUnique true true true = IsUnique-of_distinct (paths (items_of true true true)) refl
  items_of-IsUnique true true false = IsUnique-of_distinct (paths (items_of true true false)) refl
  items_of-IsUnique true false true = IsUnique-of_distinct (paths (items_of true false true)) refl
  items_of-IsUnique true false false = IsUnique-of_distinct (paths (items_of true false false)) refl
  items_of-IsUnique false true true = IsUnique-of_distinct (paths (items_of false true true)) refl
  items_of-IsUnique false true false = IsUnique-of_distinct (paths (items_of false true false)) refl
  items_of-IsUnique false false true = IsUnique-of_distinct (paths (items_of false false true)) refl
  items_of-IsUnique false false false =
      IsUnique-of_distinct (paths (items_of false false false)) refl

  -- Which files there are for these technologies.
  abbrev Holds : Bool → Bool → Bool → List String → Type 0
  Holds t a k ps =
      (contains ps "terraform/main.tf" ≡ t)
      × (contains ps "terraform/variables.tf" ≡ t)
      × (contains ps "terraform/outputs.tf" ≡ t)
      × (contains ps "ansible/playbook.yml" ≡ a)
      × (contains ps "ansible/hosts.ini" ≡ a)
      × (contains ps "k8s/deployment.yaml" ≡ k)
      × (contains ps "README.md" ≡ true)

  items_of-Holds : (t a k : Bool) → Holds t a k (paths (items_of t a k))
  unfolding terraform_items ansible_items kubernetes_items
  items_of-Holds true true true = (refl, refl, refl, refl, refl, refl, refl)
  items_of-Holds true true false = (refl, refl, refl, refl, refl, refl, refl)
  items_of-Holds true false true = (refl, refl, refl, refl, refl, refl, refl)
  items_of-Holds true false false = (refl, refl, refl, refl, refl, refl, refl)
  items_of-Holds false true true = (refl, refl, refl, refl, refl, refl, refl)
  items_of-Holds false true false = (refl, refl, refl, refl, refl, refl, refl)
  items_of-Holds false false true = (refl, refl, refl, refl, refl, refl, refl)
  items_of-Holds false false false = (refl, refl, refl, refl, refl, refl, refl)

-- No two files of a bundle have one path. The Terraform files are in it exactly when a node of the
-- canvas has the technology Terraform, the Ansible files when one has Ansible or Source, and the
-- Kubernetes file when one has Kubernetes; the README always is.
pub bundle_paths :
    (encode : String → String) (nodes : List Node) (edges : List Edge)
    → IsUnique (paths (generate_bundle_files encode nodes edges))
      × (contains (paths (generate_bundle_files encode nodes edges)) "terraform/main.tf"
          ≡ any (has_tech "Terraform") nodes)
      × (contains (paths (generate_bundle_files encode nodes edges)) "terraform/variables.tf"
          ≡ any (has_tech "Terraform") nodes)
      × (contains (paths (generate_bundle_files encode nodes edges)) "terraform/outputs.tf"
          ≡ any (has_tech "Terraform") nodes)
      × (contains (paths (generate_bundle_files encode nodes edges)) "ansible/playbook.yml"
          ≡ any (λ n. has_tech "Ansible" n || has_tech "Source" n) nodes)
      × (contains (paths (generate_bundle_files encode nodes edges)) "ansible/hosts.ini"
          ≡ any (λ n. has_tech "Ansible" n || has_tech "Source" n) nodes)
      × (contains (paths (generate_bundle_files encode nodes edges)) "k8s/deployment.yaml"
          ≡ any (has_tech "Kubernetes") nodes)
      × (contains (paths (generate_bundle_files encode nodes edges)) "README.md" ≡ true)
unfolding generate_bundle_files is_ansible
bundle_paths encode nodes edges =
    let t = any (has_tech "Terraform") nodes in
    let a = any is_ansible nodes in
    let k = any (has_tech "Kubernetes") nodes in
    let h = items_of-Holds encode nodes edges t a k in
    (items_of-IsUnique encode nodes edges t a k, h.0, h.1, h.2, h.3, h.4, h.5, h.6)
