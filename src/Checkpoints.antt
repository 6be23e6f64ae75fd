-- ===== src/Checkpoints.antt =====
-- web-rally/src/pages/admin/components/checkpoints/useCheckpointManagement.ts: the admin's form for
-- a checkpoint, the route's order and its drag and drop, and the state of the page's manager.
pub mod Form
pub mod Route
pub mod Manager
mod Tests
