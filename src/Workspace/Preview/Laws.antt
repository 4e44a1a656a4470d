-- ===== src/Workspace/Preview/Laws.antt =====
-- The preview of a node against the files of the bundle.
use whiparc.Prelude.{
  String, ◌≡◌, refl, inl, inr, Bool, true, false, ◌&&◌, ◌||◌, List, ◌∷◌, ◌++◌, ◌==◌, eq_iff, All,
  any, if◌then◌else◌, Bool-cases,
}
use whiparc.Prelude.Lists.{any-here}
use whiparc.Canvas.{Node, Edge, has_tech}
use whiparc.Terraform.{generate_terraform_files}
use whiparc.Bundle.Hosts.{is_ansible}
use whiparc.Bundle.Files.{
  FileItem, generate_bundle_files, terraform_items, ansible_items, kubernetes_items,
}
use whiparc.Bundle.Paths.{items_of}
use whiparc.Workspace.Preview.{
  PreviewFile, content_of, is_group, is_machine_or_group, terraform_preview, get_node_files,
  preview, yaml, ini,
}

-- Is there a file with this name and content in the bundle?
unfoldable pub is_bundled : List FileItem → PreviewFile → Bool
unfolding any
is_bundled files f = any (λ (i : FileItem). i.name == f.name && i.content == f.content) files

-- Is a node that the bundle has files for previewed with files?
unfoldable pub is_previewed : Node → Bool
unfolding is_machine_or_group
is_previewed n =
    if is_machine_or_group n
    then has_tech "Terraform" n
    else has_tech "Ansible" n || has_tech "Kubernetes" n

eq-same : (s : String) → (s == s) ≡ true
eq-same s = (eq_iff s s).1 refl

module _ (encode : String → String) (nodes : List Node) (edges : List Edge) where
  -- The main file, and the other two unless it is a group's.
  terraform-IsBundled :
      (n : Node) (a k : Bool)
      → All
          (λ f. is_bundled (items_of encode nodes edges true a k) f ≡ true)
          (terraform_preview n nodes edges)
  unfolding terraform_preview is_bundled terraform_items
  terraform-IsBundled n a k =
      let tf = generate_terraform_files nodes edges in
      elim (Bool-cases (is_group n)) [
        | inl g ↦ rw g (rw (eq-same tf.main_tf) (refl, tt))
        | inr g ↦ rw g (
            rw (eq-same tf.main_tf, eq-same tf.variables_tf, eq-same tf.outputs_tf)
              (refl, (refl, (refl, tt))))
      ]

  -- The playbook and the inventory.
  ansible-IsBundled :
      (t k : Bool)
      → (is_bundled (items_of encode nodes edges t true k) (
            preview "playbook.yml"
              (content_of "playbook.yml" (items_of encode nodes edges t true k))
              yaml)
          ≡ true)
        × (is_bundled (items_of encode nodes edges t true k) (
              preview "hosts.ini"
                (content_of "hosts.ini" (items_of encode nodes edges t true k))
                ini)
            ≡ true)
  unfolding is_bundled content_of terraform_items ansible_items
  ansible-IsBundled true k = (rw (eq-same _) refl, rw (eq-same _) refl)
  ansible-IsBundled false k = (rw (eq-same _) refl, rw (eq-same _) refl)

  kubernetes-IsBundled :
      (t a : Bool)
      → is_bundled (items_of encode nodes edges t a true) (
          preview "deployment.yaml"
            (content_of "deployment.yaml" (items_of encode nodes edges t a true))
            yaml)
        ≡ true
  unfolding is_bundled content_of terraform_items ansible_items kubernetes_items
  kubernetes-IsBundled true true = rw (eq-same _) refl
  kubernetes-IsBundled true false = rw (eq-same _) refl
  kubernetes-IsBundled false true = rw (eq-same _) refl
  kubernetes-IsBundled false false = rw (eq-same _) refl

has_tech-is_ansible : (n : Node) → has_tech "Ansible" n ≡ true → is_ansible n ≡ true
unfolding is_ansible
has_tech-is_ansible n h = rw h refl

-- What the preview of a node on the canvas shows is in the bundle of the canvas, with the same name
-- and content, for the machines and groups of Terraform and for what is Ansible's or Kubernetes'.
pub preview_bundled :
    (encode : String → String) (before : List Node) (n : Node) (after : List Node)
    (edges : List Edge)
    → is_previewed n ≡ true
    → All
        (λ f. is_bundled (generate_bundle_files encode (before ++ n ∷ after) edges) f ≡ true)
        (get_node_files encode n (before ++ n ∷ after) edges)
unfolding generate_bundle_files get_node_files is_previewed
preview_bundled encode before n after edges h =
    let nodes = before ++ n ∷ after in
    let t = any (has_tech "Terraform") nodes in
    let a = any is_ansible nodes in
    let k = any (has_tech "Kubernetes") nodes in
    elim (Bool-cases (is_machine_or_group n)) [
      | inl m ↦
          let own : has_tech "Terraform" n ≡ true = rw m at h in
          let found : t ≡ true = any-here (has_tech "Terraform") before n after own in
          rw m (rw found (terraform-IsBundled encode nodes edges n a k))
      | inr m ↦ elim (Bool-cases (has_tech "Ansible" n)) [
        | inl own ↦
            let found : a ≡ true = any-here is_ansible before n after (has_tech-is_ansible n own) in
            let both = ansible-IsBundled encode nodes edges t k in
            rw m (rw own (rw found (both.0, (both.1, tt))))
        | inr none_here ↦
            let own : has_tech "Kubernetes" n ≡ true = rw (m, none_here) at h in
            let found : k ≡ true = any-here (has_tech "Kubernetes") before n after own in
            rw m
              (rw none_here (rw own (rw found (kubernetes-IsBundled encode nodes edges t a, tt))))
      ]
    ]
