-- ===== src/Playbook/Examples.antt =====
-- A canvas of two connected Ansible nodes, and the theorems about the playbook at it.
use Prim.Native.String.{◌++◌ as ◌+++◌}
use mathlib.Core.List.{Memᴰ}
use whiparc.Prelude.{
  true, ◌↔◌, IsUnique-of_distinct, ℕ, String, ◌≡◌, refl, some, List, [], ◌∷◌, arith, ◌==◌, keep,
  contains, IsUnique, if◌then◌else◌,
}
use whiparc.Canvas.{Node, Edge, plain}
use whiparc.Canvas.Json.{str, end, field}
use whiparc.Sort.{ids, node_map, get_sorted_nodes}
use whiparc.Sort.Arcs.{arcs}
use mathlib.Core.List.{filter_map}
use whiparc.Canvas.{data_field, parameters}
use whiparc.Canvas.Json.{lookup, or_else, truthy, truthy?}
use whiparc.Playbook.Packages.{nginx_tasks, open_port_tasks}
use whiparc.Playbook.Vars.{match_name}
use whiparc.Playbook.{
  kind_of, text_or, is_custom_ansible, kind_tasks, node_tasks, tasks_string, generate_ansible_yaml,
}
use whiparc.Playbook.Header.{header}
use whiparc.Playbook.Vars.{found_variables, vars_block}
use whiparc.Playbook.Vars.Placeholders.{IsPlaceholder}
use whiparc.Playbook.Vars.Found.{found_variables-IsPlaceholder}
use whiparc.Playbook.Order.{preamble, fixed_tasks, playbook_declares, tasks_string_order}

abbrev install_nginx : Node
install_nginx = record { id = "nginx-1"; payload = some (field "tech" (str "Ansible") end) }

abbrev open_port : Node
open_port = record { id = "open-port-1"; payload = some (field "tech" (str "Ansible") end) }

abbrev opens : Edge
opens = record { id = "e1"; source = "nginx-1"; target = "open-port-1"; look = plain }

abbrev nodes : List Node
nodes = open_port ∷ install_nginx ∷ []

abbrev rank : String → ℕ
rank v = if v == "open-port-1" then 1 else 0

tasks_string_order_example :
    (x : Node) × (y : Node) × (a : String) × (b : String) × (c : String) × (node_map nodes "nginx-1"
      ≡ some x)
    × (node_map nodes "open-port-1" ≡ some y)
    × (tasks_string nodes (opens ∷ []) ≡ a +++ (node_tasks x +++ (b +++ (node_tasks y +++ c))))
unfolding get_sorted_nodes arcs keep
tasks_string_order_example =
    tasks_string_order nodes (opens ∷ []) (IsUnique-of_distinct (ids nodes) refl) rank (omega arith)
      opens (Memᴰ.head refl) refl

leaves_port_open : found_variables (header +++ tasks_string nodes (opens ∷ [])) ≡ "port_number" ∷ []
unfolding found_variables match_name header tasks_string get_sorted_nodes filter_map node_tasks
    kind_of text_or is_custom_ansible kind_tasks nginx_tasks open_port_tasks data_field parameters
    lookup or_else truthy? truthy
leaves_port_open = refl

playbook_declares_example :
    generate_ansible_yaml nodes (opens ∷ [])
    ≡ preamble
      +++ ((vars_block ("port_number" ∷ []) +++ "\n  tasks:\n")
          +++ (fixed_tasks +++ tasks_string nodes (opens ∷ [])))
playbook_declares_example =
    playbook_declares open_port (install_nginx ∷ []) (opens ∷ []) "port_number" [] leaves_port_open

found_variables-IsPlaceholder_example :
    IsUnique (found_variables "{{ a }}{{a}}")
    × ((v : String)
        → (contains (found_variables "{{ a }}{{a}}") v ≡ true) ↔ IsPlaceholder v "{{ a }}{{a}}")
found_variables-IsPlaceholder_example = found_variables-IsPlaceholder "{{ a }}{{a}}"
