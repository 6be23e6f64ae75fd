-- ===== src/Badges.antt =====
-- The badges of the admin area: web-rally/src/lib/badgeTriggers.ts, lib/badges.ts and
-- pages/admin/components/badges/BadgeForm.tsx.
pub mod Triggers
pub mod Form
mod Tests
