-- ===== src/Bundle/Examples.antt =====
-- A canvas for the bundle, and the theorems about the manifests and the inventory at it.
use whiparc.Prelude.{◌||◌, any, contains, IsUnique, String, ◌≡◌, true, some, [], ◌∷◌}
use whiparc.Bundle.Files.{generate_bundle_files}
use whiparc.Bundle.Paths.{paths, bundle_paths}
use whiparc.Canvas.{Node, Edge, plain, has_tech}
use whiparc.Canvas.Json.{str, end, field}

abbrev service_node : Node
service_node = record { id = "k8s_service_1"; payload = some (field "tech" (str "Kubernetes") end) }

abbrev playbook_node : Node
playbook_node = record { id = "nginx-1"; payload = some (field "tech" (str "Ansible") end) }

abbrev machine : Node
machine = record { id = "aws_instance_7"; payload = some (field "tech" (str "Terraform") end) }

abbrev deploys : Edge
deploys = record { id = "e1"; source = "aws_instance_7"; target = "nginx-1"; look = plain }

abbrev encode : String → String
encode s = s

abbrev later_node : Node
later_node = record { id = "open-port-1"; payload = some (field "tech" (str "Ansible") end) }

abbrev opens : Edge
opens = record { id = "e2"; source = "nginx-1"; target = "open-port-1"; look = plain }

bundle_paths_example :
    IsUnique (paths (generate_bundle_files encode (playbook_node ∷ []) []))
    × (contains (paths (generate_bundle_files encode (playbook_node ∷ []) [])) "terraform/main.tf"
        ≡ any (has_tech "Terraform") (playbook_node ∷ []))
    × (contains
          (paths (generate_bundle_files encode (playbook_node ∷ []) []))
          "terraform/variables.tf"
        ≡ any (has_tech "Terraform") (playbook_node ∷ []))
    × (contains
          (paths (generate_bundle_files encode (playbook_node ∷ []) []))
          "terraform/outputs.tf"
        ≡ any (has_tech "Terraform") (playbook_node ∷ []))
    × (contains
          (paths (generate_bundle_files encode (playbook_node ∷ []) []))
          "ansible/playbook.yml"
        ≡ any (λ n. has_tech "Ansible" n || has_tech "Source" n) (playbook_node ∷ []))
    × (contains (paths (generate_bundle_files encode (playbook_node ∷ []) [])) "ansible/hosts.ini"
        ≡ any (λ n. has_tech "Ansible" n || has_tech "Source" n) (playbook_node ∷ []))
    × (contains (paths (generate_bundle_files encode (playbook_node ∷ []) [])) "k8s/deployment.yaml"
        ≡ any (has_tech "Kubernetes") (playbook_node ∷ []))
    × (contains (paths (generate_bundle_files encode (playbook_node ∷ []) [])) "README.md" ≡ true)
bundle_paths_example = bundle_paths encode (playbook_node ∷ []) []
