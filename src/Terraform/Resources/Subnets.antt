-- ===== src/Terraform/Resources/Subnets.antt =====
-- The subnet block of main.tf against the machines that are placed in it.
use mathlib.Core.List.{Memᴰ}
use mathlib.Core.List.Memᴰ
use whiparc.Prelude.{
  String, ◌≡◌, refl, sym, ap, ◌∙◌, ◌⊎◌, inl, inr, true, some, List, [], ◌∷◌, starts_with,
  Option-cases, Bool-cases,
}
use whiparc.Sort.Precedence.{mem-keep}
use whiparc.Canvas.{Node, Edge, has_tech, parameters, param_or}
use whiparc.Terraform.Links.{terraform_nodes, given, linked_name, first_of, first_name, or_this}
use whiparc.Terraform.Instance.{
  Place, chosen, subnet, place, place_without_subnet, subnet_block_after,
}
use whiparc.Terraform.Resources.{
  Clouds, Progress, ResourceKind, machine_kind, group_kind, bucket_kind, database_kind, vpc_kind,
  subnet_kind, custom_kind, no_kind, kind_block, kind_of_node, add_resource, add_resources,
  progress,
}

-- Does the parameter or the canvas name a subnet?
IsNamed : Place → Type 0
IsNamed p = ((val : String) × (p ≡ chosen val)) ⊎ ((name : String) × (p ≡ subnet name))

module _ (nodes : List Node) (edges : List Edge) where
  place-cases :
      (n : Node)
      → IsNamed (place nodes edges n) ⊎ (place nodes edges n ≡ place_without_subnet nodes)
  unfolding place IsNamed
  place-cases n = elim (Option-cases (given (parameters n) "subnetId")) [
    | inr (val, e) ↦ inl (inl (val, rw (e, place) refl))
    | inl e ↦
        elim (Option-cases (
          or_this (linked_name nodes edges n.id "aws_subnet" "subnetName" "app_subnet_1a")
            (first_name nodes "aws_subnet" "subnetName" "app_subnet_1a"))) [
              | inr (name, h) ↦ inl (inr (name, rw (e, place) (rw h refl)))
              | inl h ↦ inr (rw (e, place) (rw h refl))
            ]
  ]

  -- The block for the machines that no subnet is named for.
  abbrev pub shared_block : String
  shared_block = subnet_block_after "" (place_without_subnet nodes)

  block-IsNamed : (b : String) (p : Place) → IsNamed p → subnet_block_after b p ≡ b
  unfolding IsNamed subnet_block_after
  block-IsNamed b p (inl (val, e)) = rw e refl
  block-IsNamed b p (inr (name, e)) = rw e refl

  block-shared : (b : String) → subnet_block_after b (place_without_subnet nodes) ≡ shared_block
  unfolding place_without_subnet subnet_block_after
  block-shared b = elim (Option-cases (first_name nodes "aws_vpc" "vpcName" "app_vpc")) [
    | inl e ↦ rw (e, place_without_subnet) refl
    | inr (v, e) ↦ rw (e, place_without_subnet) refl
  ]

  block_stays : (n : Node) → subnet_block_after shared_block (place nodes edges n) ≡ shared_block
  block_stays n = elim (place-cases n) [
    | inl named ↦ block-IsNamed shared_block (place nodes edges n) named
    | inr e ↦ rw e (block-shared shared_block)
  ]

  module _ (on : Clouds) where
    kind_block-shared :
        (k : ResourceKind) (n : Node) → kind_block on nodes edges k n shared_block ≡ shared_block
    unfolding kind_block
    kind_block-shared machine_kind n = elim (Bool-cases on.aws) [
      | inl yes_aws ↦ rw yes_aws (block_stays n)
      | inr no_aws ↦ rw no_aws refl
    ]
    kind_block-shared group_kind n = refl
    kind_block-shared bucket_kind n = refl
    kind_block-shared database_kind n = refl
    kind_block-shared vpc_kind n = refl
    kind_block-shared subnet_kind n = refl
    kind_block-shared custom_kind n = refl
    kind_block-shared no_kind n = refl

    kind_block-named :
        (k : ResourceKind) (n : Node) (b : String)
        → IsNamed (place nodes edges n)
        → kind_block on nodes edges k n b ≡ b
    unfolding kind_block
    kind_block-named machine_kind n b h = elim (Bool-cases on.aws) [
      | inl yes_aws ↦ rw yes_aws (block-IsNamed b (place nodes edges n) h)
      | inr no_aws ↦ rw no_aws refl
    ]
    kind_block-named group_kind n b h = refl
    kind_block-named bucket_kind n b h = refl
    kind_block-named database_kind n b h = refl
    kind_block-named vpc_kind n b h = refl
    kind_block-named subnet_kind n b h = refl
    kind_block-named custom_kind n b h = refl
    kind_block-named no_kind n b h = refl

    add_resources-shared :
        (ns : List Node) (w : Progress)
        → w.subnet_block ≡ shared_block
        → (add_resources on nodes edges ns w).subnet_block ≡ shared_block
    unfolding add_resources
    add_resources-shared [] w h = h
    add_resources-shared (n ∷ ns) w h = add_resources-shared ns (add_resource on nodes edges n w) (
        ap (kind_block on nodes edges (kind_of_node on n) n) h
        ∙ kind_block-shared (kind_of_node on n) n)

    add_resources-machine :
        (ns : List Node) (w : Progress) (n : Node)
        → Memᴰ n ns
        → on.aws ≡ true
        → starts_with n.id "aws_instance.web_server" ≡ true
        → place nodes edges n ≡ place_without_subnet nodes
        → (add_resources on nodes edges ns w).subnet_block ≡ shared_block
    unfolding add_resources kind_of_node kind_block
    add_resources-machine [] w n m has_aws machine placed = absurd (Memᴰ.not-nil m)
    add_resources-machine (x ∷ ns) w n m has_aws machine placed = elim (Memᴰ.cases_cons m) [
      | inl e ↦
          let here : kind_block on nodes edges (kind_of_node on n) n w.subnet_block ≡ shared_block =
            rw machine (rw has_aws (rw placed (block-shared w.subnet_block))) in
          add_resources-shared ns (add_resource on nodes edges x w) (
            ap (λ y. kind_block on nodes edges (kind_of_node on y) y w.subnet_block) (sym e) ∙ here)
      | inr later ↦
          add_resources-machine ns (add_resource on nodes edges x w) n later has_aws machine placed
    ]

    add_resources-named :
        (ns : List Node) (w : Progress)
        → ((n : Node) → IsNamed (place nodes edges n))
        → (add_resources on nodes edges ns w).subnet_block ≡ w.subnet_block
    unfolding add_resources
    add_resources-named [] w h = refl
    add_resources-named (n ∷ ns) w h =
        add_resources-named ns (add_resource on nodes edges n w) h
        ∙ kind_block-named (kind_of_node on n) n w.subnet_block (h n)

-- The subnet that an AWS machine refers to when neither its parameters nor the canvas name one is
-- declared: the subnet block of main.tf is the one for that place, whatever machines come after.
pub subnet_block_declared :
    (on : Clouds) (nodes : List Node) (edges : List Edge) (n : Node)
    → Memᴰ n nodes
    → has_tech "Terraform" n ≡ true
    → on.aws ≡ true
    → starts_with n.id "aws_instance.web_server" ≡ true
    → place nodes edges n ≡ place_without_subnet nodes
    → (progress on nodes edges).subnet_block ≡ subnet_block_after "" (place nodes edges n)
unfolding progress terraform_nodes
subnet_block_declared on nodes edges n m tech has_aws machine placed =
    add_resources-machine nodes edges on (terraform_nodes nodes) _ n
      (mem-keep (has_tech "Terraform") nodes m tech) has_aws machine placed
    ∙ ap (subnet_block_after "") (sym placed)

first_subnet-IsNamed :
    (nodes : List Node) (edges : List Edge) (s : Node)
    → first_of nodes "aws_subnet" ≡ some s
    → (n : Node) → IsNamed (place nodes edges n)
unfolding IsNamed first_name place
first_subnet-IsNamed nodes edges s h n =
    let name = param_or (parameters s) "subnetName" "app_subnet_1a" in
    let first : first_name nodes "aws_subnet" "subnetName" "app_subnet_1a" ≡ some name =
      rw (h, first_name) refl in
    elim (Option-cases (given (parameters n) "subnetId")) [
      | inr (val, e) ↦ inl (val, rw (e, place) refl)
      | inl e ↦
          elim (Option-cases
            (linked_name nodes edges n.id "aws_subnet" "subnetName" "app_subnet_1a")) [
              | inr (linked, l) ↦ inr (linked, rw (e, place) (rw l refl))
              | inl l ↦ inr (name, rw (e, place) (rw l (rw first refl)))
            ]
    ]

-- With a subnet on the canvas main.tf has no subnet block: neither a subnet of its own nor the data
-- source for the default VPC.
pub subnet_block_empty :
    (on : Clouds) (nodes : List Node) (edges : List Edge) (s : Node)
    → first_of nodes "aws_subnet" ≡ some s
    → (progress on nodes edges).subnet_block ≡ ""
unfolding progress
subnet_block_empty on nodes edges s h =
    add_resources-named nodes edges on (terraform_nodes nodes) _
      (first_subnet-IsNamed nodes edges s h)
