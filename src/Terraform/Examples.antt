-- ===== src/Terraform/Examples.antt =====
-- A machine and a subnet on AWS, and the theorems about the Terraform files at them.
use Prim.Native.String.{◌++◌ as ◌+++◌}
use mathlib.Core.List.{Memᴰ}
use whiparc.Prelude.{String, zero, ◌≡◌, refl, true, false, some, [], ◌∷◌}
use whiparc.Prelude.Text.{join}
use whiparc.Canvas.{Node, has_tech, data_field, parameters}
use whiparc.Canvas.Json.{str, num, bool, obj, Fields, end, field, lookup, truthy}
use whiparc.Terraform.Targets.{connected_targets}
use whiparc.Terraform.Links.{terraform_nodes, first_of, given, linked_name}
use whiparc.Terraform.Instance.{place, subnet_block_after}
use whiparc.Terraform.Resources.{Clouds, clouds, progress}
use whiparc.Terraform.Resources.Parts.{node_resources, main_tf_holds}
use whiparc.Terraform.Resources.Subnets.{subnet_block_declared}
use whiparc.Terraform.References.{references, serialized}
use whiparc.Terraform.{generate_terraform_files}

abbrev with_parameters : String → Fields → Node
with_parameters id p = record {
  id = id;
  payload = some (field "tech" (str "Terraform") (field "parameters" (obj p) end));
}

abbrev machine : Node
machine = with_parameters "aws_instance.web_server" end

abbrev subnet_node : Node
subnet_node = with_parameters "aws_subnet-1" end

abbrev group : Node
group =
    with_parameters "aws_security_group-1"
      (field "httpPort" (num 80) (field "sshEnabled" (bool false) end))

abbrev asks_for_ip : Node
asks_for_ip =
    with_parameters "aws_s3_bucket-1"
      (field "bucketName" (str "b-{{ nodes.aws_subnet-1.subnet_id }}") end)

abbrev target : Node
target = record { id = "aws_target-1"; payload = some (field "tech" (str "Target") end) }

abbrev on_aws : Clouds
on_aws = record { aws = true; gcp = false; azure = false }

main_tf_holds_example :
    (a : String) × (b : String) × ((generate_terraform_files (machine ∷ group ∷ []) []).main_tf
      ≡ a
        +++ (node_resources
              (clouds (connected_targets (machine ∷ group ∷ [])))
              (machine ∷ group ∷ [])
              []
              group
            +++ b))
unfolding has_tech data_field lookup
main_tf_holds_example =
    main_tf_holds (machine ∷ group ∷ []) [] group (Memᴰ.tail (Memᴰ.head refl)) refl

subnet_block_declared_example :
    (progress on_aws (machine ∷ group ∷ []) []).subnet_block
    ≡ subnet_block_after "" (place (machine ∷ group ∷ []) [] machine)
unfolding has_tech data_field lookup place first_of terraform_nodes given linked_name parameters
    truthy
subnet_block_declared_example =
    subnet_block_declared on_aws (machine ∷ group ∷ []) [] machine (Memᴰ.head refl) refl refl refl
      refl

asks_for_subnet :
    references zero (serialized (asks_for_ip ∷ subnet_node ∷ []))
    ≡ ("aws_subnet-1", "subnet_id") ∷ []
unfolding references serialized join
asks_for_subnet = refl
