-- ===== src/Pwa.antt =====
-- web-rally/src/sw.ts and what the page does with its messages: the service worker's badge, its
-- notifications, its push subscription and its background sync.
pub mod Badge
pub mod Notifications
pub mod Rotation
pub mod Subscription
pub mod KeyBytes
pub mod Wake
mod Tests
