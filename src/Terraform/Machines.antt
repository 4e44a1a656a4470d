-- ===== src/Terraform/Machines.antt =====
-- The resources of a virtual machine in main.tf, for each cloud, and their outputs: template
-- literals of apps/web/app/lib/bundleGenerator.ts.
use mathlib.Core.List.{[], ◌∷◌}
use Prim.Native.String.{String}
use whiparc.Prelude.Text.{cat}

unfoldable pub auto_subnet : (vpc : String) → String
unfolding cat
auto_subnet vpc = cat (
    "resource \"aws_subnet\" \"whiparc_auto_subnet\" {\n" ∷ "  vpc_id                  = aws_vpc."
    ∷ vpc ∷ ".id\n" ∷ "  cidr_block              = \"10.0.1.0/24\"\n"
    ∷ "  map_public_ip_on_launch = true\n" ∷ "  tags = {\n" ∷ "    Name = \"" ∷ vpc
    ∷ "-auto-subnet\"\n" ∷ "  }\n" ∷ "}\n" ∷ "\n"
    ∷ "resource \"aws_route_table_association\" \"whiparc_auto_subnet_assoc\" {\n"
    ∷ "  subnet_id      = aws_subnet.whiparc_auto_subnet.id\n"
    ∷ "  route_table_id = aws_route_table." ∷ vpc ∷ "_rt.id\n" ∷ "}" ∷ [])

unfoldable pub default_vpc : String
unfolding cat
default_vpc = cat (
    "data \"aws_vpc\" \"default\" {\n" ∷ "  default = true\n" ∷ "}\n" ∷ "\n"
    ∷ "data \"aws_subnets\" \"default\" {\n" ∷ "  filter {\n" ∷ "    name   = \"vpc-id\"\n"
    ∷ "    values = [data.aws_vpc.default.id]\n" ∷ "  }\n" ∷ "}" ∷ [])

unfoldable pub aws_instance : (name ami type subnet_line sg_line volume tag_lines : String) → String
unfolding cat
aws_instance name ami type subnet_line sg_line volume tag_lines = cat (
    "resource \"aws_key_pair\" \"whiparc_key\" {\n" ∷ "  key_name   = \"whiparc-deploy-key\"\n"
    ∷ "  public_key = var.aws_ssh_pub_key\n" ∷ "}\n" ∷ "\n" ∷ "resource \"aws_instance\" \"" ∷ name
    ∷ "\" {\n" ∷ "  ami           = \"" ∷ ami ∷ "\"\n" ∷ "  instance_type = \"" ∷ type ∷ "\""
    ∷ subnet_line ∷ sg_line ∷ "\n" ∷ "  key_name      = aws_key_pair.whiparc_key.key_name\n" ∷ "\n"
    ∷ "  root_block_device {\n" ∷ "    volume_size = " ∷ volume ∷ "\n" ∷ "  }\n" ∷ "\n"
    ∷ "  tags = {\n" ∷ "    Name = \"" ∷ name ∷ "\"\n" ∷ "    " ∷ tag_lines ∷ "\n" ∷ "  }\n" ∷ "}\n"
    ∷ "\n" ∷ [])

unfoldable pub aws_instance_output : (name : String) → String
unfolding cat
aws_instance_output name = cat (
    "output \"" ∷ name ∷ "_public_ip\" {\n" ∷ "  value       = aws_instance." ∷ name
    ∷ ".public_ip\n" ∷ "  description = \"Public IP address of the virtual machine\"\n" ∷ "}\n"
    ∷ "\n" ∷ [])

unfoldable pub gcp_instance : (name type image size : String) → String
unfolding cat
gcp_instance name type image size = cat (
    "resource \"google_compute_network\" \"vpc_network\" {\n"
    ∷ "  name                    = \"whiparc-vpc\"\n" ∷ "  auto_create_subnetworks = false\n"
    ∷ "}\n" ∷ "\n" ∷ "resource \"google_compute_subnetwork\" \"subnet\" {\n"
    ∷ "  name          = \"whiparc-subnet\"\n" ∷ "  ip_cidr_range = \"10.10.1.0/24\"\n"
    ∷ "  region        = var.gcp_region\n"
    ∷ "  network       = google_compute_network.vpc_network.id\n" ∷ "}\n" ∷ "\n"
    ∷ "resource \"google_compute_instance\" \"vm_instance\" {\n" ∷ "  name         = \"" ∷ name
    ∷ "\"\n" ∷ "  machine_type = \"" ∷ type ∷ "\"\n" ∷ "  zone         = var.gcp_zone\n" ∷ "\n"
    ∷ "  boot_disk {\n" ∷ "    initialize_params {\n" ∷ "      image = \"" ∷ image ∷ "\"\n"
    ∷ "      size  = " ∷ size ∷ "\n" ∷ "    }\n" ∷ "  }\n" ∷ "\n" ∷ "  network_interface {\n"
    ∷ "    subnetwork = google_compute_subnetwork.subnet.id\n" ∷ "    access_config {\n"
    ∷ "      // Ephemeral public IP for SSH access\n" ∷ "    }\n" ∷ "  }\n" ∷ "\n"
    ∷ "  metadata = {\n" ∷ "    ssh-keys = \"ubuntu:${var.gcp_ssh_pub_key}\"\n" ∷ "  }\n" ∷ "}\n"
    ∷ "\n" ∷ [])

unfoldable pub gcp_instance_output : String
unfolding cat
gcp_instance_output = cat (
    "output \"gcp_instance_public_ip\" {\n"
    ∷ "  value       = google_compute_instance.vm_instance.network_interface.0.access_c"
    ∷ "onfig.0.nat_ip\n" ∷ "  description = \"The public IP of the GCP VM instance\"\n" ∷ "}\n"
    ∷ "\n" ∷ [])

unfoldable pub azure_instance : (name vm_size size publisher offer sku : String) → String
unfolding cat
azure_instance name vm_size size publisher offer sku = cat (
    "resource \"azurerm_resource_group\" \"rg\" {\n" ∷ "  name     = \"whiparc-rg\"\n"
    ∷ "  location = \"East US\"\n" ∷ "}\n" ∷ "\n"
    ∷ "resource \"azurerm_virtual_network\" \"vnet\" {\n"
    ∷ "  name                = \"whiparc-vnet\"\n" ∷ "  address_space       = [\"10.0.0.0/16\"]\n"
    ∷ "  location            = azurerm_resource_group.rg.location\n"
    ∷ "  resource_group_name = azurerm_resource_group.rg.name\n" ∷ "}\n" ∷ "\n"
    ∷ "resource \"azurerm_subnet\" \"subnet\" {\n" ∷ "  name                 = \"whiparc-subnet\"\n"
    ∷ "  resource_group_name  = azurerm_resource_group.rg.name\n"
    ∷ "  virtual_network_name = azurerm_virtual_network.vnet.name\n"
    ∷ "  address_prefixes     = [\"10.0.1.0/24\"]\n" ∷ "}\n" ∷ "\n"
    ∷ "resource \"azurerm_public_ip\" \"pip\" {\n" ∷ "  name                = \"" ∷ name
    ∷ "-pip\"\n" ∷ "  location            = azurerm_resource_group.rg.location\n"
    ∷ "  resource_group_name = azurerm_resource_group.rg.name\n"
    ∷ "  allocation_method   = \"Dynamic\"\n" ∷ "}\n" ∷ "\n"
    ∷ "resource \"azurerm_network_interface\" \"nic\" {\n" ∷ "  name                = \"" ∷ name
    ∷ "-nic\"\n" ∷ "  location            = azurerm_resource_group.rg.location\n"
    ∷ "  resource_group_name = azurerm_resource_group.rg.name\n" ∷ "\n" ∷ "  ip_configuration {\n"
    ∷ "    name                          = \"internal\"\n"
    ∷ "    subnet_id                     = azurerm_subnet.subnet.id\n"
    ∷ "    private_ip_address_allocation = \"Dynamic\"\n"
    ∷ "    public_ip_address_id          = azurerm_public_ip.pip.id\n" ∷ "  }\n" ∷ "}\n" ∷ "\n"
    ∷ "resource \"azurerm_linux_virtual_machine\" \"vm\" {\n" ∷ "  name                = \"" ∷ name
    ∷ "\"\n" ∷ "  resource_group_name = azurerm_resource_group.rg.name\n"
    ∷ "  location            = azurerm_resource_group.rg.location\n" ∷ "  size                = \""
    ∷ vm_size ∷ "\"\n" ∷ "  admin_username      = \"azureuser\"\n" ∷ "  network_interface_ids = [\n"
    ∷ "    azurerm_network_interface.nic.id,\n" ∷ "  ]\n" ∷ "\n" ∷ "  admin_ssh_key {\n"
    ∷ "    username   = \"azureuser\"\n" ∷ "    public_key = var.azure_ssh_pub_key\n" ∷ "  }\n"
    ∷ "\n" ∷ "  os_disk {\n" ∷ "    caching              = \"ReadWrite\"\n"
    ∷ "    storage_account_type = \"Standard_LRS\"\n" ∷ "    disk_size_gb         = " ∷ size ∷ "\n"
    ∷ "  }\n" ∷ "\n" ∷ "  source_image_reference {\n" ∷ "    publisher = \"" ∷ publisher ∷ "\"\n"
    ∷ "    offer     = \"" ∷ offer ∷ "\"\n" ∷ "    sku       = \"" ∷ sku ∷ "\"\n"
    ∷ "    version   = \"latest\"\n" ∷ "  }\n" ∷ "}\n" ∷ "\n" ∷ "\n" ∷ [])

unfoldable pub azure_instance_output : String
unfolding cat
azure_instance_output = cat (
    "output \"azure_instance_public_ip\" {\n" ∷ "  value       = azurerm_public_ip.pip.ip_address\n"
    ∷ "  description = \"The public IP of the Azure VM instance\"\n" ∷ "}\n" ∷ "\n" ∷ [])
