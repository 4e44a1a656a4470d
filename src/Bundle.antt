-- ===== src/Bundle.antt =====
-- `generateBundleFiles` of apps/web/app/lib/bundleGenerator.ts: the list of the bundle's
-- files, the Kubernetes manifests and the Ansible inventory.
pub mod Manifests
pub mod Hosts
pub mod Start
pub mod Files
pub mod Paths
mod Examples
