-- ===== src/Bundle/Hosts.antt =====
-- The inventory ansible/hosts.ini of `generateBundleFiles`: which machine the playbook runs on.
use whiparc.Prelude.{
  String, ◌≡◌, refl, sym, ap, ◌∙◌, ◌⊎◌, inl, inr, Bool, true, false, not, ◌&&◌, ◌||◌, Option, none,
  some, List, [], ◌∷◌, map, ◌==◌, starts_with, eq_iff, first, keep, find_first, contains,
  if◌then◌else◌, Bool-cases,
}
use whiparc.Prelude.Text.{cat, trim}
use whiparc.Canvas.{Node, Edge, parameters, params_of, has_tech, param_or}
use whiparc.Canvas.Json.{Fields}

-- `tech === 'Ansible' || tech === 'Source'`
unfoldable pub is_ansible : Node → Bool
is_ansible n = has_tech "Ansible" n || has_tech "Source" n

abbrev pub ansible_ids : List Node → List String
ansible_ids = map (λ n. n.id)

-- `nonStartAnsibleIds`: the Ansible nodes that an edge from an Ansible node enters.
unfoldable pub non_start_ids : List String → List Edge → List String
unfolding keep
non_start_ids ansible edges =
    map (λ e. e.target)
      (keep (λ (e : Edge). contains ansible e.target && contains ansible e.source) edges)

-- `startAnsibleNodes[0]`
unfoldable pub start_node : List Node → List Edge → Option Node
unfolding non_start_ids is_ansible
start_node nodes edges =
    let ansible = keep is_ansible nodes in
    first (keep (λ n. not (contains (non_start_ids (ansible_ids ansible) edges) n.id)) ansible)

-- Is this the source of a machine?
unfoldable pub is_vm : String → Bool
is_vm source =
    starts_with source "aws_instance"
    || starts_with source "google_compute_instance"
    || starts_with source "gcp_target"
    || starts_with source "azure_linux"

-- `e.target === startNode?.id && …`
unfoldable pub incoming_vm_edges : Option Node → List Edge → List Edge
unfolding keep is_vm
incoming_vm_edges none edges = []
incoming_vm_edges (some n) edges = keep (λ e. e.target == n.id && is_vm e.source) edges

abbrev pub host_entry : String → String → String
unfolding cat
host_entry host user = cat ("web_server_1 ansible_host=" ∷ host ∷ " ansible_user=" ∷ user ∷ [])

abbrev pub id_starts_with : Option Node → String → Bool
id_starts_with none t = false
id_starts_with (some n) t = starts_with n.id t

abbrev pub public_ip : String → Option Node → String
unfolding cat
public_ip resource vm =
    cat (resource ∷ "." ∷ param_or (params_of vm) "instanceName" "web_server" ∷ ".public_ip" ∷ [])

-- The line for a machine that an edge leads from.
unfoldable pub connected_line : Option Node → Fields → String
connected_line vm p =
    if id_starts_with vm "aws_instance"
    then host_entry (public_ip "aws_instance" vm) (param_or p "ansibleUser" "ubuntu")
    else if id_starts_with vm "google_compute_instance" || id_starts_with vm "gcp_target"
    then host_entry (public_ip "google_compute_instance" vm) (param_or p "ansibleUser" "ubuntu")
    else host_entry "azurerm_public_ip.pip.ip_address" (param_or p "ansibleUser" "azureuser")

-- The line for a canvas on which no machine is connected and no host is named.
unfoldable pub fallback_line : List Node → String → String
unfolding find_first
fallback_line nodes user =
    elim (find_first (λ (n : Node). starts_with n.id "aws_instance.web_server") nodes) [
      | some vm ↦ host_entry (public_ip "aws_instance" (some vm)) user
      | none ↦ elim (find_first (λ (n : Node). starts_with n.id "gcp_target") nodes) [
        | some _ ↦ host_entry "google_compute_instance.web_server.public_ip" user
        | none ↦ host_entry "127.0.0.1" user
      ]
    ]

-- `hostLine`
unfoldable pub host_line : List Node → List Edge → String
unfolding start_node incoming_vm_edges connected_line fallback_line trim
host_line nodes edges =
    let start = start_node nodes edges in
    let p = params_of start in
    let host = param_or p "ansibleHost" "" in
    let user = param_or p "ansibleUser" "ubuntu" in
    elim (incoming_vm_edges start edges) [
      | e ∷ _ ↦ connected_line (find_first (λ n. n.id == e.source) nodes) p
      | [] ↦ if host == "" then fallback_line nodes user else host_entry (trim host) user
    ]

-- The content of ansible/hosts.ini.
unfoldable pub hosts_ini : List Node → List Edge → String
hosts_ini nodes edges = cat (
    "[webservers]\n"
    ∷ host_line nodes edges
    ∷ "\n\n[all:vars]\nansible_python_interpreter=/usr/bin/python3"
    ∷ [])

-- `nodes.find` returns a listed node that passes the test, or there is none.
find_first-cases :
    (p : Node → Bool) (nodes : List Node)
    → (find_first p nodes ≡ none) ⊎ ((n : Node) × (find_first p nodes ≡ some n) × (p n ≡ true))
unfolding find_first
find_first-cases p [] = inl refl
find_first-cases p (n ∷ ns) = elim (Bool-cases (p n)) [
  | inl found ↦ inr (n, rw found, found)
  | inr other ↦ rw other (find_first-cases p ns)
]

-- A connected AWS machine is the host: if the first machine edge into the start node comes from a
-- listed AWS instance, the inventory names that instance's address, whatever host the parameters name.
host_line_connected :
    (nodes : List Node) (edges : List Edge) (start vm : Node) (e : Edge) (rest : List Edge)
    → start_node nodes edges ≡ some start
    → incoming_vm_edges (some start) edges ≡ e ∷ rest
    → find_first (λ n. n.id == e.source) nodes ≡ some vm
    → starts_with e.source "aws_instance" ≡ true
    → host_line nodes edges
      ≡ host_entry
          (public_ip "aws_instance" (some vm))
          (param_or (parameters start) "ansibleUser" "ubuntu")
unfolding host_line connected_line
host_line_connected nodes edges start vm e rest at_start incoming found aws =
    elim (find_first-cases (λ n. n.id == e.source) nodes) [
      | inl missing ↦ absurd cc
      | inr (n, at_n, same) ↦
          let n_is_vm : n ≡ vm = cc in
          let id : vm.id ≡ e.source =
            ap (λ (m : Node). m.id) (sym n_is_vm) ∙ (eq_iff n.id e.source).0 same in
          let on_aws : starts_with vm.id "aws_instance" ≡ true =
            ap (λ t. starts_with t "aws_instance") id ∙ aws in
          rw (at_start, host_line)
            (rw incoming (
              rw found (
                rw on_aws (
                  ap
                    (λ n.
                      host_entry (public_ip "aws_instance" (some vm))
                        (param_or (params_of n) "ansibleUser" "ubuntu"))
                    at_start))))
    ]
