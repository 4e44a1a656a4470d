-- ===== src/Terraform/Resources/Parts.antt =====
-- main.tf holds the block of every Terraform node, whole and once for each.
use Prim.Native.String.{◌++◌ as ◌+++◌}
use mathlib.Core.List.{Memᴰ}
use text.Mathlib.TextLemmas
use whiparc.Prelude.{String, ◌≡◌, sym, ap, ◌∙◌, true, List, [], ◌∷◌, ◌++◌, map}
use whiparc.Prelude.Text.{cat}
use whiparc.Prelude.Parts.{cat-mem}
use whiparc.Sort.Precedence.{mem-keep}
use whiparc.Canvas.{Node, Edge, has_tech}
use whiparc.Terraform.Targets.{connected_targets}
use whiparc.Terraform.Links.{terraform_nodes}
use whiparc.Terraform.Providers.{provider_block, providers}
use whiparc.Terraform.Resources.{
  Clouds, clouds, Progress, kind_resources, kind_of_node, add_resource, add_resources, progress,
}
use whiparc.Terraform.{generate_terraform_files}

-- What a node adds.
unfoldable pub node_resources : Clouds → List Node → List Edge → Node → String
unfolding kind_resources kind_of_node
node_resources on nodes edges n = kind_resources on nodes edges (kind_of_node on n) n

module _ (on : Clouds) (nodes : List Node) (edges : List Edge) where
  add_resources-resources :
      (ns : List Node) (w : Progress)
      → (add_resources on nodes edges ns w).resources
        ≡ w.resources +++ cat (map (node_resources on nodes edges) ns)
  unfolding add_resources cat node_resources
  add_resources-resources [] w = sym (TextLemmas.append-nil w.resources)
  add_resources-resources (n ∷ ns) w =
      add_resources-resources ns (add_resource on nodes edges n w)
      ∙ TextLemmas.append_assoc w.resources (node_resources on nodes edges n)
          (cat (map (node_resources on nodes edges) ns))

cat-append_last : (xs : List String) (x : String) → cat (xs ++ x ∷ []) ≡ cat xs +++ x
unfolding cat
cat-append_last [] x = TextLemmas.append-nil x ∙ sym (TextLemmas.nil-append x)
cat-append_last (y ∷ ys) x =
    ap (λ t. y +++ t) (cat-append_last ys x) ∙ sym (TextLemmas.append_assoc y (cat ys) x)

-- What stands before the resources.
abbrev front : Clouds → List Node → List Edge → List String
front on nodes edges =
    let targets = connected_targets nodes in
    "# Generated by Whiparc (https://whiparc.com)\n\n"
    ∷ provider_block targets
    ∷ "\n\n"
    ∷ providers targets
    ∷ "\n\n"
    ∷ (progress on nodes edges).subnet_block
    ∷ "\n\n"
    ∷ []

-- Every Terraform node of the canvas has its block in main.tf.
pub main_tf_holds :
    (nodes : List Node) (edges : List Edge) (n : Node)
    → Memᴰ n nodes
    → has_tech "Terraform" n ≡ true
    → (a : String) × (b : String) × ((generate_terraform_files nodes edges).main_tf
        ≡ a +++ (node_resources (clouds (connected_targets nodes)) nodes edges n +++ b))
unfolding generate_terraform_files terraform_nodes progress
main_tf_holds nodes edges n m tech =
    let on = clouds (connected_targets nodes) in
    let w = progress on nodes edges in
    let (p, r, inner) =
      cat-mem (node_resources on nodes edges) (terraform_nodes nodes)
        (mem-keep (has_tech "Terraform") nodes m tech) in
    let node = node_resources on nodes edges n in
    let start = cat (front on nodes edges) in
    let block : w.resources ≡ p +++ (node +++ r) =
      add_resources-resources on nodes edges (terraform_nodes nodes) _
      ∙ TextLemmas.nil-append _
      ∙ inner in
    (
      start +++ p,
      r,
      cat-append_last (front on nodes edges) w.resources
          ∙ ap (λ t. start +++ t) block
          ∙ sym (TextLemmas.append_assoc start p (node +++ r)),
    )
