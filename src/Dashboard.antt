-- ===== src/Dashboard.antt =====
-- The runs of all projects and what the pages make of them: apps/web/app/lib/useAggregatedRuns.ts,
-- `computeDashboardRunStats`, the texts and the projects of apps/web/app/dashboard/DashboardV2.tsx,
-- and the statistics of apps/web/app/runs/RunsPageV2.tsx.
pub mod Percent
pub mod Runs
pub mod Texts
pub mod Page
pub mod Sparkline
pub mod Projects
pub mod Failing
pub mod Newest
mod Examples
