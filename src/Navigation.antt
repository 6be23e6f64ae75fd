-- ===== src/Navigation.antt =====
-- web-rally/src/components/shared/navigation and the hooks that deal with gestures: the tab bar, the
-- active route, the back gesture.
pub mod TabScrub
pub mod BackDismiss
pub mod ActiveRoute
mod Tests
