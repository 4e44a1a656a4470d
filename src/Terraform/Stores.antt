-- ===== src/Terraform/Stores.antt =====
-- Buckets and databases in main.tf: the branches `aws_s3_bucket` and `aws_db_instance` of
-- `generateTerraformFiles` in apps/web/app/lib/bundleGenerator.ts, and their outputs.
use mathlib.Core.List.{List, [], ◌∷◌}
use Prim.Native.String.{String}
use whiparc.Prelude.Text.{cat}
use whiparc.Prelude.{◌==◌, none, some, if◌then◌else◌}
use Prim.Native.String.{◌++◌}
use whiparc.Canvas.{Node, Edge, parameters, param_or, unless_false}
use whiparc.Canvas.Json.{Fields}
use whiparc.Terraform.Links.{given, reference_or_quoted, linked_name}

unfoldable pub bucket_resource : (name force versioning : String) → String
unfolding cat
bucket_resource name force versioning = cat (
    "resource \"aws_s3_bucket\" \"" ∷ name ∷ "\" {\n" ∷ "  bucket        = \"" ∷ name ∷ "\"\n"
    ∷ "  force_destroy = " ∷ force ∷ "\n" ∷ "}\n" ∷ "\n"
    ∷ "resource \"aws_s3_bucket_versioning\" \"" ∷ name ∷ "_versioning\" {\n"
    ∷ "  bucket = aws_s3_bucket." ∷ name ∷ ".id\n" ∷ "  versioning_configuration {\n"
    ∷ "    status = \"" ∷ versioning ∷ "\"\n" ∷ "  }\n" ∷ "}\n" ∷ "\n" ∷ [])

unfoldable pub database_resource :
    (name storage engine class username password extra : String) → String
unfolding cat
database_resource name storage engine class username password extra = cat (
    "resource \"aws_db_instance\" \"" ∷ name ∷ "\" {\n" ∷ "  allocated_storage   = " ∷ storage
    ∷ "\n" ∷ "  db_name             = \"" ∷ name ∷ "\"\n" ∷ "  engine              = \"postgres\"\n"
    ∷ "  engine_version      = \"" ∷ engine ∷ "\"\n" ∷ "  instance_class      = \"" ∷ class ∷ "\"\n"
    ∷ "  username            = \"" ∷ username ∷ "\"\n" ∷ "  password            = \"" ∷ password
    ∷ "\"\n" ∷ "  skip_final_snapshot = true" ∷ extra ∷ "\n" ∷ "}\n" ∷ "\n" ∷ [])

unfoldable pub bucket_output : (name : String) → String
unfolding cat
bucket_output name = cat (
    "output \"" ∷ name ∷ "_bucket_arn\" {\n" ∷ "  value       = aws_s3_bucket." ∷ name ∷ ".arn\n"
    ∷ "  description = \"ARN of the S3 bucket\"\n" ∷ "}\n" ∷ "\n" ∷ [])

unfoldable pub database_output : (name : String) → String
unfolding cat
database_output name = cat (
    "output \"" ∷ name ∷ "_endpoint\" {\n" ∷ "  value       = aws_db_instance." ∷ name
    ∷ ".endpoint\n" ∷ "  description = \"Endpoint of the database instance\"\n" ∷ "}\n" ∷ "\n" ∷ [])

-- The name of a bucket.
unfoldable pub bucket_name : Fields → String
unfolding param_or
bucket_name p = param_or p "bucketName" "whiparc-user-bucket"

unfoldable pub bucket : Fields → String
unfolding bucket_name unless_false bucket_resource
bucket p =
    bucket_resource (bucket_name p) (unless_false p "forceDestroy")
      (if unless_false p "versioningEnabled" == "true" then "Enabled" else "Suspended")

unfoldable pub database_name : Fields → String
unfolding param_or
database_name p = param_or p "dbName" "appdb"

unfoldable pub subnet_group_line : Fields → String
unfolding cat given reference_or_quoted
subnet_group_line p = elim (given p "dbSubnetGroupName") [
  | none ↦ ""
  | some val ↦ cat ("\n  db_subnet_group_name = " ∷ reference_or_quoted "aws_" val ∷ [])
]

unfoldable pub database_group_line : List Node → List Edge → Node → String
unfolding cat given reference_or_quoted linked_name
database_group_line nodes edges n = elim (given (parameters n) "vpcSecurityGroupIds") [
  | some val ↦ cat ("\n  vpc_security_group_ids = [" ∷ reference_or_quoted "aws_" val ∷ "]" ∷ [])
  | none ↦ elim (linked_name nodes edges n.id "aws_security_group" "sgName" "web_sg") [
    | some name ↦ cat ("\n  vpc_security_group_ids = [aws_security_group." ∷ name ∷ ".id]" ∷ [])
    | none ↦ ""
  ]
]

unfoldable pub database : List Node → List Edge → Node → String
unfolding param_or database_name database_resource subnet_group_line database_group_line
database nodes edges n =
    let p = parameters n in
    database_resource (database_name p) (param_or p "allocatedStorage" "20")
      (param_or p "engineVersion" "14.1") (param_or p "instanceClass" "db.t3.micro")
      (param_or p "username" "dbadmin") (param_or p "password" "SuperSecurePassword123!")
      (subnet_group_line p ++ database_group_line nodes edges n)
