-- ===== src/Wording.antt =====
-- web-rally/src: the words that the application shows: an event's terms, and an error's message.
pub mod Terms
pub mod Errors
mod Tests
