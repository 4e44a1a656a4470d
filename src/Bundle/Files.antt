-- ===== src/Bundle/Files.antt =====
-- The list of files of the bundle: `generateBundleFiles` of apps/web/app/lib/bundleGenerator.ts.
use Prim.Native.String.{count as chars}
use whiparc.Prelude.{
  ℕ, ◌+◌, ◌*◌, ◌/◌, ◌%◌, String, Bool, List, [], ◌∷◌, ◌++◌ as ◌+++◌, any, length, ◌==◌,
  if◌then◌else◌,
}
use whiparc.Prelude.Text.{cat, join, split, decimal, text_if}
use whiparc.Canvas.{Node, Edge, has_tech}
use whiparc.Terraform.{generate_terraform_files}
use whiparc.Playbook.{generate_ansible_yaml}
use whiparc.Bundle.Hosts.{is_ansible, hosts_ini}
use whiparc.Bundle.Manifests.{deployment_yaml}

pub record FileItem : Type 0 where
  pub path : String
  pub name : String
  pub language : String
  pub icon : String
  pub icon_color : String
  pub lines : ℕ
  pub size : String
  pub content : String

-- `countLines`
unfoldable pub count_lines : String → ℕ
unfolding split
count_lines s = length (split 10 s)

-- The tenths of a kilobyte that `toFixed(1)` shows: the nearest, and the larger of two.
unfoldable pub tenths_of_kb : ℕ → ℕ
tenths_of_kb size = (20 * size + 1024) / 2048

-- `getSizeKb`
unfoldable pub size_kb : String → String
unfolding tenths_of_kb cat decimal
size_kb s =
    let tenths = tenths_of_kb (chars s) in
    cat (decimal (tenths / 10) ∷ "." ∷ decimal (tenths % 10) ∷ " KB" ∷ [])

abbrev pub file : String → String → String → String → String → String → FileItem
file path name language icon icon_color content = record {
  path = path;
  name = name;
  language = language;
  icon = icon;
  icon_color = icon_color;
  lines = count_lines content;
  size = size_kb content;
  content = content;
}

-- `[…].filter(Boolean).join(', ')`
unfoldable pub tech_list : Bool → Bool → Bool → String
unfolding join
tech_list terraform ansible kubernetes = join ", " (
    (if terraform then "Terraform" ∷ [] else [])
    +++ ((if ansible then "Ansible" ∷ [] else [])
        +++ (if kubernetes then "Kubernetes" ∷ [] else [])))

-- `readmeContent`
unfoldable pub readme : Bool → Bool → Bool → String
unfolding cat tech_list
readme terraform ansible kubernetes =
    let techs = tech_list terraform ansible kubernetes in
    cat (
      "# Whiparc Generated Bundle\n\nThis bundle contains the infrastructure code generated from your Whiparc canvas.\n\n## Technologies\n"
      ∷ (if techs == "" then "No technologies configured on canvas yet." else techs)
      ∷ "\n\n## Usage\n"
      ∷ text_if terraform
          "1. Initialize and apply Terraform: `cd terraform && terraform init && terraform apply`\n"
      ∷ text_if ansible
          "2. Run Ansible playbook: `cd ansible && ansible-playbook -i hosts.ini playbook.yml`\n"
      ∷ text_if kubernetes "3. Apply Kubernetes manifests: `kubectl apply -f k8s/`\n"
      ∷ [])

unfoldable pub terraform_items : List Node → List Edge → List FileItem
unfolding generate_terraform_files
terraform_items nodes edges =
    let tf = generate_terraform_files nodes edges in
    file "terraform/main.tf" "main.tf" "HCL" "lucide:file" "text-primary" tf.main_tf
    ∷ file "terraform/variables.tf" "variables.tf" "HCL" "lucide:file" "text-muted-foreground"
        tf.variables_tf
    ∷ file "terraform/outputs.tf" "outputs.tf" "HCL" "lucide:file" "text-muted-foreground"
        tf.outputs_tf
    ∷ []

unfoldable pub ansible_items : List Node → List Edge → List FileItem
unfolding generate_ansible_yaml hosts_ini
ansible_items nodes edges =
    file "ansible/playbook.yml" "playbook.yml" "YAML" "lucide:clipboard" "text-[#8B5CF6]"
      (generate_ansible_yaml nodes edges)
    ∷ file "ansible/hosts.ini" "hosts.ini" "INI" "lucide:settings" "text-muted-foreground"
        (hosts_ini nodes edges)
    ∷ []

module _ (encode : String → String) where
  unfoldable pub kubernetes_items : List Node → List FileItem
  unfolding deployment_yaml
  kubernetes_items nodes =
      file "k8s/deployment.yaml" "deployment.yaml" "YAML" "lucide:layers" "text-[#0EA5E9]"
        (deployment_yaml encode nodes)
      ∷ []

  unfoldable pub generate_bundle_files : List Node → List Edge → List FileItem
  unfolding any terraform_items ansible_items kubernetes_items readme
  generate_bundle_files nodes edges =
      let terraform = any (has_tech "Terraform") nodes in
      let ansible = any is_ansible nodes in
      let kubernetes = any (has_tech "Kubernetes") nodes in
      (if terraform then terraform_items nodes edges else [])
      +++ ((if ansible then ansible_items nodes edges else [])
          +++ ((if kubernetes then kubernetes_items nodes else [])
              +++ file "README.md" "README.md" "Markdown" "lucide:file" "text-muted-foreground"
                  (readme terraform ansible kubernetes)
                ∷ []))
