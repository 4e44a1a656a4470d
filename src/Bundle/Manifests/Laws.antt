-- ===== src/Bundle/Manifests/Laws.antt =====
-- Which manifests k8s/deployment.yaml holds.
