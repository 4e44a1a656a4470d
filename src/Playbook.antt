-- ===== src/Playbook.antt =====
-- `generateAnsibleYAML` of apps/web/app/lib/exportYaml.ts: a task block for each sorted node, and
-- the variables that the blocks leave open.
pub mod Header
pub mod Packages
pub mod Services
pub mod Vars
pub mod Order
mod Examples
use Prim.Native.String.{◌++◌}
use whiparc.Prelude.{
  ℕ, String, Bool, true, false, ◌&&◌, ◌||◌, not, Option, none, some, List, [], ◌∷◌, map, ◌==◌,
  starts_with, if◌then◌else◌,
}
use whiparc.Prelude.Text.{cat, includes, trim, split, join}
use whiparc.Canvas.{Node, Edge, data_field, parameters, is_text, param_or}
use whiparc.Canvas.Json.{Value, bool, Fields, lookup, truthy, truthy?, or_else, shown}
use whiparc.Sort.{get_sorted_nodes}
use Header.{header}
use Packages.{
  update_packages_tasks, nginx_tasks, nodejs_tasks, postgresql_tasks, postgresql_user_tasks,
  open_port_tasks,
}
use Services.{
  deploy_node_app_tasks, copy_env_tasks, apt_install_tasks, create_user_tasks,
  systemd_service_tasks, git_clone_tasks, shell_command_tasks, file_copy_tasks, custom_tasks,
}
use Vars.{drop, declare_variables}

-- The branches of the ladder over a node's id and label.
pub data Kind : Type 0 where
  update_packages nginx nodejs postgresql open_port deploy_node_app copy_env apt_install : Kind
  create_user systemd_service git_clone shell_command file_copy custom unknown : Kind

unfoldable pub kind_of : String → String → Bool → Kind
unfolding includes
kind_of id label is_custom =
    if starts_with id "update-packages" || includes label "Update Packages"
    then update_packages
    else if starts_with id "nginx" || includes label "Install Nginx"
    then nginx
    else if starts_with id "nodejs" || includes label "Install Node.js"
    then nodejs
    else if starts_with id "postgresql" || includes label "Postgres" || includes label "PostgreSQL"
    then postgresql
    else if starts_with id "open-port" || includes label "Open Port"
    then open_port
    else if starts_with id "deploy-node-app" || includes label "Deploy Node App"
    then deploy_node_app
    else if starts_with id "copy-env" || includes label "Copy .env"
    then copy_env
    else if starts_with id "apt_install"
    then apt_install
    else if starts_with id "create_user"
    then create_user
    else if starts_with id "systemd_service"
    then systemd_service
    else if starts_with id "git_clone"
    then git_clone
    else if starts_with id "shell_command"
    then shell_command
    else if starts_with id "file_copy"
    then file_copy
    else if is_custom
    then custom
    else unknown

-- `v || fallback`, as a text
unfoldable pub text_or : Option Value → String → String
unfolding truthy shown
text_or v fallback = elim v [ none ↦ fallback | some w ↦ if truthy w then shown w else fallback ]

-- `v !== false ? 'yes' : 'no'`
unfoldable pub yes_unless_false : Option Value → String
yes_unless_false (some (bool false)) = "no"
yes_unless_false _ = "yes"

-- `${v}` for a field that may be absent
unfoldable pub interpolated : Option Value → String
unfolding shown
interpolated none = "undefined"
interpolated (some v) = shown v

-- The repository's URL with the token's lookup put in, for a private repository.
unfoldable pub git_repo_url : String → String → String
unfolding drop
git_repo_url credential_id repo_url =
    if not (credential_id == "") && starts_with repo_url "https://"
    then cat ("https://{{ lookup('env', 'GITHUB_PAT') | default('') }}@" ∷ drop 8 repo_url ∷ [])
    else repo_url

unfoldable pub packages_list : String → String
unfolding trim split join
packages_list packages =
    join "\n" (map (λ item. cat ("          - " ∷ trim item ∷ [])) (split b',' packages))

-- The lines of a custom block, indented; a blank line becomes empty.
unfoldable pub indented : String → String
unfolding trim split join
indented code =
    join "\n"
      (map (λ line. if trim line == "" then "" else cat ("    " ∷ line ∷ [])) (split b'\n' code))

-- The block of a node, by its kind.
unfoldable pub kind_tasks : Kind → Node → String
kind_tasks update_packages n = update_packages_tasks
kind_tasks nginx n = nginx_tasks
kind_tasks nodejs n = nodejs_tasks
kind_tasks postgresql n =
    postgresql_tasks
    ++ postgresql_user_tasks
        (text_or (or_else (data_field n "dbUser") (lookup "dbUser" (parameters n))) "{{ db_user }}")
        (text_or (or_else (data_field n "dbPass") (lookup "dbPass" (parameters n))) "{{ db_pass }}")
kind_tasks open_port n =
    open_port_tasks
      (text_or (or_else (data_field n "port") (lookup "port" (parameters n))) "{{ port_number }}")
kind_tasks deploy_node_app n =
    deploy_node_app_tasks
      (text_or (or_else (data_field n "startCommand") (lookup "startCommand" (parameters n)))
        "npm start")
      (text_or (or_else (data_field n "appPort") (lookup "appPort" (parameters n))) "3000")
kind_tasks copy_env n = copy_env_tasks
kind_tasks apt_install n =
    apt_install_tasks (packages_list (param_or (parameters n) "packages" "curl, git, jq"))
      (param_or (parameters n) "state" "present")
kind_tasks create_user n =
    create_user_tasks (param_or (parameters n) "username" "deployer")
      (param_or (parameters n) "shell" "/bin/bash")
      (yes_unless_false (lookup "createHome" (parameters n)))
kind_tasks systemd_service n =
    systemd_service_tasks (param_or (parameters n) "serviceName" "nginx")
      (param_or (parameters n) "state" "started")
      (yes_unless_false (lookup "enabled" (parameters n)))
kind_tasks git_clone n =
    git_clone_tasks
      (git_repo_url
        (text_or (or_else (lookup "credentialId" (parameters n)) (data_field n "credentialId")) "")
        (text_or (or_else (lookup "repoUrl" (parameters n)) (data_field n "repoUrl")) ""))
      (text_or (or_else (lookup "destPath" (parameters n)) (data_field n "destPath"))
        "/var/www/app")
      (text_or (or_else (lookup "branch" (parameters n)) (data_field n "branch")) "main")
kind_tasks shell_command n =
    shell_command_tasks (param_or (parameters n) "command" "echo \"hello\"")
      (param_or (parameters n) "chdir" "/tmp")
kind_tasks file_copy n =
    file_copy_tasks (param_or (parameters n) "srcPath" "") (param_or (parameters n) "destPath" "")
      (param_or (parameters n) "owner" "www-data") (param_or (parameters n) "mode" "0644")
kind_tasks custom n =
    custom_tasks (interpolated (data_field n "label"))
      (indented (text_or (data_field n "rawCode") ""))
kind_tasks unknown n = ""

-- `data.isCustom && data.tech === 'Ansible'`
unfoldable pub is_custom_ansible : Node → Bool
unfolding data_field is_text truthy?
is_custom_ansible n = truthy? (data_field n "isCustom") && is_text (data_field n "tech") "Ansible"

-- The body of `sortedNodes.forEach`.
unfoldable pub node_tasks : Node → String
node_tasks n = elim n.payload [
  | none ↦ ""
  | some _ ↦ kind_tasks (kind_of n.id (text_or (data_field n "label") "") (is_custom_ansible n)) n
]

-- `tasksString`
unfoldable pub tasks_string : List Node → List Edge → String
unfolding cat
tasks_string nodes edges = cat (map node_tasks (get_sorted_nodes nodes edges))

unfoldable pub generate_ansible_yaml : List Node → List Edge → String
generate_ansible_yaml [] edges =
    "# Your infrastructure canvas is currently empty.\n# Add nodes to generate an Ansible playbook."
generate_ansible_yaml (n ∷ ns) edges = declare_variables (header ++ tasks_string (n ∷ ns) edges)
