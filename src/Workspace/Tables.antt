-- ===== src/Workspace/Tables.antt =====
-- The parameters of new blocks of Ansible and Kubernetes, as `getDefaultParametersForNode` of
-- apps/web/app/workspace/page.tsx lists them.
use whiparc.Prelude.{String, true, List, [], ◌∷◌}
use whiparc.Canvas.Json.{Value, str, bool, num}

-- The branches for Ansible blocks
unfoldable pub ansible_defaults : List (String × List (String × Value))
ansible_defaults =
    (
      "apt_install",
      ("packages", str "curl, git, jq")
          ∷ ("state", str "present")
          ∷ ("ansibleHost", str "")
          ∷ ("ansibleUser", str "ubuntu")
          ∷ [],
    )
    ∷ (
      "create_user",
      ("username", str "deployer")
          ∷ ("shell", str "/bin/bash")
          ∷ ("createHome", bool true)
          ∷ ("ansibleHost", str "")
          ∷ ("ansibleUser", str "ubuntu")
          ∷ [],
    )
    ∷ (
      "systemd_service",
      ("serviceName", str "nginx")
          ∷ ("state", str "started")
          ∷ ("enabled", bool true)
          ∷ ("ansibleHost", str "")
          ∷ ("ansibleUser", str "ubuntu")
          ∷ [],
    )
    ∷ (
      "git_clone",
      ("repoUrl", str "https://github.com/whiparc/sample-app.git")
          ∷ ("destPath", str "/var/www/app")
          ∷ ("branch", str "main")
          ∷ ("ansibleHost", str "")
          ∷ ("ansibleUser", str "ubuntu")
          ∷ [],
    )
    ∷ (
      "shell_command",
      ("command", str "echo \"hello infrastructure\"")
          ∷ ("chdir", str "/tmp")
          ∷ ("ansibleHost", str "")
          ∷ ("ansibleUser", str "ubuntu")
          ∷ [],
    )
    ∷ (
      "file_copy",
      ("srcPath", str "config.json")
          ∷ ("destPath", str "/var/www/app/config.json")
          ∷ ("owner", str "www-data")
          ∷ ("mode", str "0644")
          ∷ ("ansibleHost", str "")
          ∷ ("ansibleUser", str "ubuntu")
          ∷ [],
    )
    ∷ (
      "open-port",
      ("port", str "80") ∷ ("ansibleHost", str "") ∷ ("ansibleUser", str "ubuntu") ∷ [],
    )
    ∷ (
      "postgresql",
      ("dbUser", str "postgres")
          ∷ ("dbPass", str "postgres")
          ∷ ("ansibleHost", str "")
          ∷ ("ansibleUser", str "ubuntu")
          ∷ [],
    )
    ∷ (
      "deploy-node-app",
      ("startCommand", str "npm start")
          ∷ ("appPort", str "3000")
          ∷ ("ansibleHost", str "")
          ∷ ("ansibleUser", str "ubuntu")
          ∷ [],
    )
    ∷ ("update-packages", ("ansibleHost", str "") ∷ ("ansibleUser", str "ubuntu") ∷ [])
    ∷ ("nginx", ("ansibleHost", str "") ∷ ("ansibleUser", str "ubuntu") ∷ [])
    ∷ ("nodejs", ("ansibleHost", str "") ∷ ("ansibleUser", str "ubuntu") ∷ [])
    ∷ ("copy-env", ("ansibleHost", str "") ∷ ("ansibleUser", str "ubuntu") ∷ [])
    ∷ []

-- The branches for Kubernetes blocks
unfoldable pub kubernetes_defaults : List (String × List (String × Value))
kubernetes_defaults =
    (
      "k8s_deployment",
      ("deploymentName", str "app-deploy")
          ∷ ("replicas", num 3)
          ∷ ("imageName", str "nginx:1.21")
          ∷ ("containerPort", num 80)
          ∷ ("cpuLimit", str "500m")
          ∷ ("memoryLimit", str "512Mi")
          ∷ [],
    )
    ∷ (
      "k8s_service",
      ("serviceName", str "app-service")
          ∷ ("serviceType", str "ClusterIP")
          ∷ ("port", num 80)
          ∷ ("targetPort", num 80)
          ∷ [],
    )
    ∷ (
      "k8s_configmap",
      ("configMapName", str "app-config")
          ∷ ("dataKey", str "APP_ENV")
          ∷ ("dataValue", str "production")
          ∷ [],
    )
    ∷ (
      "k8s_secret",
      ("secretName", str "app-secret")
          ∷ ("secretKey", str "DB_PASSWORD")
          ∷ ("secretValue", str "SecretString123")
          ∷ [],
    )
    ∷ (
      "k8s_ingress",
      ("ingressName", str "app-ingress")
          ∷ ("host", str "app.local")
          ∷ ("path", str "/")
          ∷ ("serviceName", str "app-service")
          ∷ ("servicePort", num 80)
          ∷ [],
    )
    ∷ (
      "k8s_pvc",
      ("pvcName", str "app-pvc")
          ∷ ("storageSize", str "10Gi")
          ∷ ("storageClass", str "standard")
          ∷ [],
    )
    ∷ []
