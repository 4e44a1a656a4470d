-- ===== src/Workspace/Defaults.antt =====
-- The parameters that a new block gets: `getDefaultParametersForNode` of
-- apps/web/app/workspace/page.tsx, as the table of its ladder over ids, and
-- apps/web/app/lib/terraformDefaults.ts.
use whiparc.Prelude.{String, ◌≡◌, refl, true, List, [], ◌∷◌, ◌++◌, starts_with, if◌then◌else◌}
use whiparc.Canvas.Json.{Value, str, bool, num, arr, obj, Fields, end, field, last, element}
use whiparc.Workspace.Tables.{ansible_defaults, kubernetes_defaults}

-- An object literal
unfoldable pub object_of : List (String × Value) → Fields
object_of [] = end
object_of ((k, v) ∷ rest) = field k v (object_of rest)

-- `{ key, value }`
abbrev tag : String → String → Value
tag k v = obj (field "key" (str k) (field "value" (str v) end))

abbrev instance_tags : Value
instance_tags = arr (element (tag "Environment" "prod") (element (tag "Role" "web") last))

-- `DEFAULT_INSTANCE_PARAMS`
unfoldable pub default_instance_params : Fields
unfolding object_of
default_instance_params = object_of (
    ("instanceName", str "web_server")
    ∷ ("amiId", str "")
    ∷ ("instanceType", str "t3.medium")
    ∷ ("subnetId", str "")
    ∷ ("rootVolumeSize", num 30)
    ∷ ("tags", instance_tags)
    ∷ [])

-- `DEFAULT_SG_PARAMS`
unfoldable pub default_sg_params : Fields
unfolding object_of
default_sg_params = object_of (
    ("sgName", str "web_sg")
    ∷ ("httpPort", num 80)
    ∷ ("httpsPort", num 443)
    ∷ ("sshEnabled", bool true)
    ∷ ("allowedCidr", str "0.0.0.0/0")
    ∷ [])

-- The branches for Terraform blocks
unfoldable pub terraform_defaults : List (String × List (String × Value))
terraform_defaults =
    (
      "aws_instance.web_server",
      ("instanceName", str "web_server")
          ∷ ("amiId", str "ami-785db401")
          ∷ ("instanceType", str "t3.medium")
          ∷ ("subnetId", str "subnet-0123456789abcdef0")
          ∷ ("securityGroupId", str "")
          ∷ ("rootVolumeSize", num 50)
          ∷ ("tags", instance_tags)
          ∷ [],
    )
    ∷ (
      "aws_security_group",
      ("sgName", str "web_sg")
          ∷ ("vpcId", str "")
          ∷ ("description", str "Allows HTTP/HTTPS inbound & SSH access")
          ∷ ("ingressPorts", str "80, 443, 22")
          ∷ [],
    )
    ∷ (
      "aws_s3_bucket",
      ("bucketName", str "whiparc-user-bucket")
          ∷ ("forceDestroy", bool true)
          ∷ ("versioningEnabled", bool true)
          ∷ [],
    )
    ∷ (
      "aws_db_instance",
      ("dbName", str "appdb")
          ∷ ("allocatedStorage", num 20)
          ∷ ("instanceClass", str "db.t3.micro")
          ∷ ("username", str "dbadmin")
          ∷ ("password", str "SuperSecurePassword123!")
          ∷ ("engineVersion", str "14.1")
          ∷ ("vpcSecurityGroupIds", str "")
          ∷ ("dbSubnetGroupName", str "")
          ∷ [],
    )
    ∷ (
      "aws_vpc",
      ("vpcName", str "app_vpc")
          ∷ ("cidrBlock", str "10.0.0.0/16")
          ∷ ("enableDnsHostnames", bool true)
          ∷ [],
    )
    ∷ (
      "aws_subnet",
      ("subnetName", str "app_subnet_1a")
          ∷ ("vpcId", str "aws_vpc.app_vpc.id")
          ∷ ("cidrBlock", str "10.0.1.0/24")
          ∷ ("availabilityZone", str "us-east-1a")
          ∷ ("mapPublicIp", bool true)
          ∷ [],
    )
    ∷ []

-- The first branch whose prefix the id has.
unfoldable pub branch : List (String × List (String × Value)) → String → Fields
unfolding object_of
branch [] id = end
branch ((prefix, params) ∷ rest) id =
    let others = branch rest id in if starts_with id prefix then object_of params else others

unfoldable pub get_default_parameters_for_node : String → Fields
unfolding branch terraform_defaults ansible_defaults kubernetes_defaults
get_default_parameters_for_node id =
    branch (terraform_defaults ++ (ansible_defaults ++ kubernetes_defaults)) id

defaults_test :
    get_default_parameters_for_node "nginx_1"
    ≡ object_of (("ansibleHost", str "") ∷ ("ansibleUser", str "ubuntu") ∷ [])
unfolding get_default_parameters_for_node
defaults_test = refl
