-- ===== src/Terraform/Outputs.antt =====
-- The expression of an output for a node and a key: `getDynamicHclOutputExpr` of
-- apps/web/app/lib/bundleGenerator.ts.
use whiparc.Prelude.{String, Bool, ◌&&◌, List, [], ◌∷◌, ◌==◌, starts_with, if◌then◌else◌}
use whiparc.Prelude.Text.{cat}
use whiparc.Canvas.{Node, parameters, param_or}
use whiparc.Canvas.Json.{Fields}

-- The first of some texts whose test holds; none is the empty text.
unfoldable pub pick : List (Bool × String) → String
pick [] = ""
pick ((b, s) ∷ rest) = let other = pick rest in if b then s else other

abbrev attribute : String → String → String → String
unfolding cat
attribute resource name key = cat (resource ∷ "." ∷ name ∷ "." ∷ key ∷ [])

-- `getDynamicHclOutputExpr` for Google Cloud
unfoldable pub gcp_expr : String → String → String
unfolding pick
gcp_expr id key =
    let machine = starts_with id "aws_instance.web_server" in
    pick (
      (
        machine && key == "public_ip",
        "google_compute_instance.vm_instance.network_interface.0.access_config.0.nat_ip",
      )
      ∷ (
        machine && key == "private_ip",
        "google_compute_instance.vm_instance.network_interface.0.network_ip",
      )
      ∷ (machine && key == "id", "google_compute_instance.vm_instance.instance_id")
      ∷ (machine && key == "ssh_user", "\"ubuntu\"")
      ∷ [])

-- `getDynamicHclOutputExpr` otherwise
unfoldable pub aws_expr : String → Fields → String → String
unfolding pick cat param_or
aws_expr id p key =
    let machine = starts_with id "aws_instance.web_server" in
    let group = starts_with id "aws_security_group" in
    let bucket = starts_with id "aws_s3_bucket" in
    let database = starts_with id "aws_db_instance" in
    let vpc = starts_with id "aws_vpc" in
    let subnet = starts_with id "aws_subnet" in
    pick (
      (
        machine && key == "public_ip",
        attribute "aws_instance" (param_or p "instanceName" "web_server") "public_ip",
      )
      ∷ (
        machine && key == "private_ip",
        attribute "aws_instance" (param_or p "instanceName" "web_server") "private_ip",
      )
      ∷ (
        machine && key == "id",
        attribute "aws_instance" (param_or p "instanceName" "web_server") "id",
      )
      ∷ (machine && key == "ssh_user", "\"ubuntu\"")
      ∷ (
        group && key == "sg_id",
        attribute "aws_security_group" (param_or p "sgName" "web_sg") "id",
      )
      ∷ (
        group && key == "sg_name",
        attribute "aws_security_group" (param_or p "sgName" "web_sg") "name",
      )
      ∷ (
        bucket && key == "bucket_name",
        attribute "aws_s3_bucket" (param_or p "bucketName" "whiparc-user-bucket") "id",
      )
      ∷ (
        bucket && key == "bucket_arn",
        attribute "aws_s3_bucket" (param_or p "bucketName" "whiparc-user-bucket") "arn",
      )
      ∷ (
        database && key == "endpoint",
        attribute "aws_db_instance" (param_or p "dbName" "appdb") "endpoint",
      )
      ∷ (
        database && key == "port",
        attribute "aws_db_instance" (param_or p "dbName" "appdb") "port",
      )
      ∷ (
        database && key == "db_name",
        attribute "aws_db_instance" (param_or p "dbName" "appdb") "db_name",
      )
      ∷ (
        database && key == "username",
        attribute "aws_db_instance" (param_or p "dbName" "appdb") "username",
      )
      ∷ (vpc && key == "vpc_id", attribute "aws_vpc" (param_or p "vpcName" "app_vpc") "id")
      ∷ (
        vpc && key == "cidr_block",
        attribute "aws_vpc" (param_or p "vpcName" "app_vpc") "cidr_block",
      )
      ∷ (
        subnet && key == "subnet_id",
        attribute "aws_subnet" (param_or p "subnetName" "app_subnet") "id",
      )
      ∷ (
        subnet && key == "availability_zone",
        attribute "aws_subnet" (param_or p "subnetName" "app_subnet") "availability_zone",
      )
      ∷ [])

-- `getDynamicHclOutputExpr`
unfoldable pub output_expr : Node → String → Bool → String
unfolding gcp_expr aws_expr
output_expr n key is_gcp = if is_gcp then gcp_expr n.id key else aws_expr n.id (parameters n) key
