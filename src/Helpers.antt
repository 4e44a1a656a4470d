-- ===== src/Helpers.antt =====
-- Small modules of apps/web/app/lib: usePlan.ts, capture.ts and avatar.ts.
pub mod Plan
pub mod Capture
pub mod Avatar
mod Examples
