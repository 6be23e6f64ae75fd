-- ===== src/Progress.antt =====
-- web-rally/src/pages/team-progress and the hooks that it uses: a team's way along the route, its
-- GPS check-in and the opening hours of the checkpoints.
pub mod OpeningHours
pub mod Team
pub mod Scanner
pub mod Checkin
mod Tests
