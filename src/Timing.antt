-- ===== src/Timing.antt =====
-- web-rally/src: the stopwatch of the staff's forms and the countdown of the home page.
pub mod Stopwatch
pub mod Countdown
pub mod WakeLock
pub mod Timezone
mod Tests
