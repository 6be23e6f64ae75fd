-- ===== src/Search.antt =====
-- The search of the admin area: web-rally/src/lib/adminSearchIndex.ts and
-- web-rally/src/hooks/useScrollToSearchTarget.ts.
pub mod Index
pub mod Scroll
pub mod Query
mod Tests
