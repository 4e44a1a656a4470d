-- ===== src/Workspace.antt =====
-- The workspace page, apps/web/app/workspace/page.tsx: the blocks that are put on the canvas, the
-- preview of their files, the saving of the canvas, the runs of its pipeline, and the
-- members who share it.
pub mod Tables
pub mod Defaults
pub mod Blocks
pub mod Drops
pub mod Clicks
pub mod Preview
pub mod Autosave
pub mod Pipeline
pub mod Presence
mod Examples
