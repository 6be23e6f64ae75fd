-- ===== src/Scoring.antt =====
-- web-rally/src: what the staff's counts are worth.
pub mod Penalties
pub mod ExtraShots
pub mod Quiz
mod Tests
