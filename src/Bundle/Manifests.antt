-- ===== src/Bundle/Manifests.antt =====
-- The Kubernetes part of `generateBundleFiles`. `encode` is the base64 encoder of the platform,
-- `btoa` or `Buffer`. In a custom node's text the keys of its parameters are taken as plain texts
-- and their values hold no `$`.
pub mod Templates
pub mod Laws
use Prim.Native.String
use Prim.Native.String.{◌++◌, count as chars}
use whiparc.Prelude.{
  ℕ, zero, suc, ◌+◌, ◌-◌, String, ◌≡◌, refl, Bool, true, false, ◌&&◌, Option, none, some, List, [],
  ◌∷◌, starts_with, if◌then◌else◌, keep,
}
use whiparc.Prelude.Text.{cat, join, is_space}
use whiparc.Canvas.{Node, data_field, parameters, has_tech, param_or}
use whiparc.Canvas.Json.{str, Fields, end, field, lookup, truthy?, shown}
use whiparc.Playbook.{text_or}
use whiparc.Playbook.Vars.{begins, drop, span}
use Templates.{
  deployment_manifest, service_manifest, configmap_manifest, secret_manifest, ingress_manifest,
  pvc_manifest, default_manifest,
}

-- How many characters `{{\s*key\s*}}` matches at the beginning of a text.
unfoldable pub match_placeholder : String → String → Option ℕ
unfolding span is_space begins drop
match_placeholder key s =
    let (before, rest) = span is_space (drop 2 s) in
    let (after, close) = span is_space (drop (chars key) rest) in
    if begins s "{{" && begins rest key && begins close "}}"
    then some (chars before + chars key + chars after + 4)
    else none

-- `text.replace(re, value)` with the global flag; `skip` characters belong to the last match.
unfoldable pub fill : String → String → ℕ → String → String
unfolding match_placeholder
fill key value skip String.[] = ""
fill key value (suc skip) (String.◌∷◌ c s) = fill key value skip s
fill key value zero (String.◌∷◌ c s) = elim (match_placeholder key (String.◌∷◌ c s)) [
  | none ↦ String.◌∷◌ c (fill key value zero s)
  | some size ↦ value ++ fill key value (size - 1) s
]

-- The loop over `Object.entries(params)`.
unfoldable pub fill_all : Fields → String → String
unfolding fill shown
fill_all end text = text
fill_all (field key v fs) text = fill_all fs (fill key (shown v) zero text)

-- The branches of the ladder over a node's id.
pub data ManifestKind : Type 0 where
  deployment service configmap secret ingress pvc from_code unsupported : ManifestKind

unfoldable pub manifest_kind : String → Bool → ManifestKind
manifest_kind id is_custom =
    if starts_with id "k8s_deployment"
    then deployment
    else if starts_with id "k8s_service"
    then service
    else if starts_with id "k8s_configmap"
    then configmap
    else if starts_with id "k8s_secret"
    then secret
    else if starts_with id "k8s_ingress"
    then ingress
    else if starts_with id "k8s_pvc"
    then pvc
    else if is_custom
    then from_code
    else unsupported

-- `k8sManifests.push`, where a branch pushes one.
unfoldable pub push_manifest : Option String → List String → List String
push_manifest none ms = ms
push_manifest (some m) ms = m ∷ ms

-- With no manifest at all the sample deployment is written.
abbrev pub or_default : List String → List String
or_default [] = default_manifest ∷ []
or_default (m ∷ ms) = m ∷ ms

module _ (encode : String → String) where
  unfoldable pub kind_manifest : ManifestKind → Node → Option String
  unfolding fill_all
  kind_manifest deployment n = some (
      deployment_manifest (param_or (parameters n) "deploymentName" "app-deploy")
        (param_or (parameters n) "replicas" "3") (param_or (parameters n) "imageName" "nginx:1.21")
        (param_or (parameters n) "containerPort" "80") (param_or (parameters n) "cpuLimit" "500m")
        (param_or (parameters n) "memoryLimit" "512Mi"))
  kind_manifest service n = some (
      service_manifest (param_or (parameters n) "serviceName" "app-service")
        (param_or (parameters n) "serviceType" "ClusterIP") (param_or (parameters n) "port" "80")
        (param_or (parameters n) "targetPort" "80"))
  kind_manifest configmap n = some (
      configmap_manifest (param_or (parameters n) "configMapName" "app-config")
        (param_or (parameters n) "dataKey" "APP_ENV")
        (param_or (parameters n) "dataValue" "production"))
  kind_manifest secret n = some (
      secret_manifest (param_or (parameters n) "secretName" "app-secret")
        (param_or (parameters n) "secretKey" "DB_PASSWORD")
        (encode (param_or (parameters n) "secretValue" "SecretString123")))
  kind_manifest ingress n = some (
      ingress_manifest (param_or (parameters n) "ingressName" "app-ingress")
        (param_or (parameters n) "host" "app.local") (param_or (parameters n) "path" "/")
        (param_or (parameters n) "serviceName" "app-service")
        (param_or (parameters n) "servicePort" "80"))
  kind_manifest pvc n = some (
      pvc_manifest (param_or (parameters n) "pvcName" "app-pvc")
        (param_or (parameters n) "storageSize" "10Gi")
        (param_or (parameters n) "storageClass" "standard"))
  kind_manifest from_code n = some (fill_all (parameters n) (text_or (data_field n "rawCode") ""))
  kind_manifest unsupported n = none

  -- The body of `k8sNodes.forEach`.
  unfoldable pub node_manifest : Node → Option String
  unfolding has_tech truthy? data_field
  node_manifest n =
      kind_manifest
        (manifest_kind n.id (truthy? (data_field n "isCustom") && has_tech "Kubernetes" n)) n

  -- `k8sManifests` after the loop over the Kubernetes nodes.
  unfoldable pub manifests : List Node → List String
  unfolding push_manifest
  manifests [] = []
  manifests (n ∷ ns) = push_manifest (node_manifest n) (manifests ns)

  -- The content of k8s/deployment.yaml.
  unfoldable pub deployment_yaml : List Node → String
  unfolding manifests keep join
  deployment_yaml nodes =
      join "\n---\n" (or_default (manifests (keep (has_tech "Kubernetes") nodes)))

fill_test : fill_all (field "a" (str "x") end) "{{ a }}-{{a}}-{{ b }}" ≡ "x-x-{{ b }}"
unfolding fill_all
fill_test = refl
