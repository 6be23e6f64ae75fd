-- ===== src/Evaluation.antt =====
-- web-rally/src/pages/staff-evaluation: the staff's evaluation of a team at a checkpoint.
pub mod Payload
pub mod Submit
pub mod Page
pub mod Status
pub mod Loading
mod Tests
