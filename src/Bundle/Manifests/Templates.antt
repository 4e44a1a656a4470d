-- ===== src/Bundle/Manifests/Templates.antt =====
-- The Kubernetes manifests of apps/web/app/lib/bundleGenerator.ts: each template literal of
-- `generateBundleFiles`, over the texts that it interpolates.
use mathlib.Core.List.{[], ◌∷◌}
use Prim.Native.String.{String}
use whiparc.Prelude.Text.{cat}

unfoldable pub deployment_manifest : (name replicas image port cpu memory : String) → String
unfolding cat
deployment_manifest name replicas image port cpu memory = cat (
    "apiVersion: apps/v1\n" ∷ "kind: Deployment\n" ∷ "metadata:\n" ∷ "  name: " ∷ name ∷ "\n"
    ∷ "  labels:\n" ∷ "    app: " ∷ name ∷ "\n" ∷ "spec:\n" ∷ "  replicas: " ∷ replicas ∷ "\n"
    ∷ "  selector:\n" ∷ "    matchLabels:\n" ∷ "      app: " ∷ name ∷ "\n" ∷ "  template:\n"
    ∷ "    metadata:\n" ∷ "      labels:\n" ∷ "        app: " ∷ name ∷ "\n" ∷ "    spec:\n"
    ∷ "      containers:\n" ∷ "      - name: container\n" ∷ "        image: " ∷ image ∷ "\n"
    ∷ "        ports:\n" ∷ "        - containerPort: " ∷ port ∷ "\n" ∷ "        resources:\n"
    ∷ "          limits:\n" ∷ "            cpu: \"" ∷ cpu ∷ "\"\n" ∷ "            memory: \""
    ∷ memory ∷ "\"" ∷ [])

unfoldable pub service_manifest : (name type port target_port : String) → String
unfolding cat
service_manifest name type port target_port = cat (
    "apiVersion: v1\n" ∷ "kind: Service\n" ∷ "metadata:\n" ∷ "  name: " ∷ name ∷ "\n" ∷ "spec:\n"
    ∷ "  type: " ∷ type ∷ "\n" ∷ "  ports:\n" ∷ "  - port: " ∷ port ∷ "\n" ∷ "    targetPort: "
    ∷ target_port ∷ "\n" ∷ "  selector:\n" ∷ "    app: app-deploy" ∷ [])

unfoldable pub configmap_manifest : (name key val : String) → String
unfolding cat
configmap_manifest name key val = cat (
    "apiVersion: v1\n" ∷ "kind: ConfigMap\n" ∷ "metadata:\n" ∷ "  name: " ∷ name ∷ "\n" ∷ "data:\n"
    ∷ "  " ∷ key ∷ ": \"" ∷ val ∷ "\"" ∷ [])

unfoldable pub secret_manifest : (name key encoded : String) → String
unfolding cat
secret_manifest name key encoded = cat (
    "apiVersion: v1\n" ∷ "kind: Secret\n" ∷ "metadata:\n" ∷ "  name: " ∷ name ∷ "\n"
    ∷ "type: Opaque\n" ∷ "data:\n" ∷ "  " ∷ key ∷ ": \"" ∷ encoded ∷ "\"" ∷ [])

unfoldable pub ingress_manifest : (name host path svc_name svc_port : String) → String
unfolding cat
ingress_manifest name host path svc_name svc_port = cat (
    "apiVersion: networking.k8s.io/v1\n" ∷ "kind: Ingress\n" ∷ "metadata:\n" ∷ "  name: " ∷ name
    ∷ "\n" ∷ "  annotations:\n" ∷ "    kubernetes.io/ingress.class: nginx\n" ∷ "spec:\n"
    ∷ "  rules:\n" ∷ "  - host: " ∷ host ∷ "\n" ∷ "    http:\n" ∷ "      paths:\n"
    ∷ "      - path: " ∷ path ∷ "\n" ∷ "        pathType: Prefix\n" ∷ "        backend:\n"
    ∷ "          service:\n" ∷ "            name: " ∷ svc_name ∷ "\n" ∷ "            port:\n"
    ∷ "              number: " ∷ svc_port ∷ [])

unfoldable pub pvc_manifest : (name size storage_class : String) → String
unfolding cat
pvc_manifest name size storage_class = cat (
    "apiVersion: v1\n" ∷ "kind: PersistentVolumeClaim\n" ∷ "metadata:\n" ∷ "  name: " ∷ name ∷ "\n"
    ∷ "spec:\n" ∷ "  accessModes:\n" ∷ "    - ReadWriteOnce\n" ∷ "  resources:\n"
    ∷ "    requests:\n" ∷ "      storage: " ∷ size ∷ "\n" ∷ "  storageClassName: " ∷ storage_class
    ∷ [])

unfoldable pub default_manifest : String
unfolding cat
default_manifest = cat (
    "apiVersion: apps/v1\n" ∷ "kind: Deployment\n" ∷ "metadata:\n"
    ∷ "  name: web-server-deployment\n" ∷ "  labels:\n" ∷ "    app: web-server\n" ∷ "spec:\n"
    ∷ "  replicas: 3\n" ∷ "  selector:\n" ∷ "    matchLabels:\n" ∷ "      app: web-server\n"
    ∷ "  template:\n" ∷ "    metadata:\n" ∷ "      labels:\n" ∷ "        app: web-server\n"
    ∷ "    spec:\n" ∷ "      containers:\n" ∷ "      - name: nginx\n"
    ∷ "        image: nginx:1.21\n" ∷ "        ports:\n" ∷ "        - containerPort: 80" ∷ [])
