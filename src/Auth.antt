-- ===== src/Auth.antt =====
-- web-rally/src: the two sessions of a user, a team's in local storage and the staff's from the
-- identity provider, and what the roles of a user open.
pub mod Storage
pub mod TeamSession
pub mod Resume
pub mod Staff
pub mod Bridge
pub mod Url
mod Tests
