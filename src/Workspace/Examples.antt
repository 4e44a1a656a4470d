-- ===== src/Workspace/Examples.antt =====
-- Library blocks as the page lists them, put on an empty canvas.
use whiparc.Prelude.{◌≡◌, refl, true, false, none, some, [], ◌∷◌, All, find_first}
use whiparc.Canvas.{Node, has_tech}
use whiparc.Canvas.Json.{str, field, end, lookup}
use whiparc.Store.{initial}
use whiparc.Bundle.Files.{generate_bundle_files}
use whiparc.Workspace.Blocks.{LibraryNode, Page, clicked_node, handle_add_node_to_canvas, new_id}
use whiparc.Workspace.Drops.{Json}
use whiparc.Workspace.Clicks.{click_selects, selected_node}
use whiparc.Workspace.Preview.{get_node_files}
use whiparc.Workspace.Preview.Laws.{is_previewed, is_bundled, preview_bundled}

abbrev json : Json
json = record { stringify = λ p. "{}"; parse = λ s. some end }

abbrev service : LibraryNode
service = record {
  id = "k8s_service";
  tech = "Kubernetes";
  icon = "lucide:external-link";
  title = "Service";
  description = "Exposes pods to network traffic via LoadBalancer or ClusterIP.";
  category = "Container Deployment";
  is_custom = false;
  raw_code = "";
  code_type = "";
  block_parameters = none;
}

abbrev firewall : LibraryNode
firewall = record {
  id = "custom_ab12";
  tech = "Terraform";
  icon = "lucide:code";
  title = "Firewall";
  description = "Our firewall";
  category = "Custom Blocks";
  is_custom = true;
  raw_code = "resource \"aws_network_acl\" \"main\" {}";
  code_type = "tf";
  block_parameters = none;
}

abbrev page : Page
page = record { canvas = initial; alerts = []; shows_gcp_notice = false }

click_selects_example :
    ((handle_add_node_to_canvas false service 1234 page).canvas.nodes
      ≡ clicked_node service 1234 ∷ [])
    × ((handle_add_node_to_canvas false service 1234 page).canvas.selected_edge_id ≡ none)
    × (selected_node (handle_add_node_to_canvas false service 1234 page).canvas
        ≡ some (clicked_node service 1234))
unfolding find_first
click_selects_example = click_selects service 1234 page refl

-- Ids repeat every ten seconds.
repeated_id_test : new_id "k8s_service" 1700000001234 ≡ new_id "k8s_service" 1700000011234
unfolding new_id
repeated_id_test = refl

abbrev play : Node
play = record { id = "nginx_1234"; payload = some (field "tech" (str "Ansible") end) }

preview_bundled_example :
    All
      (λ f. is_bundled (generate_bundle_files (λ s. s) (play ∷ []) []) f ≡ true)
      (get_node_files (λ s. s) play (play ∷ []) [])
unfolding is_previewed has_tech lookup
preview_bundled_example = preview_bundled (λ s. s) [] play [] [] refl
