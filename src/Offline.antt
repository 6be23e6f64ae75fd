-- ===== src/Offline.antt =====
-- web-rally/src/offline: the durable queues of evaluations and arrivals, and their database.
pub mod EvalQueue
pub mod ArrivalQueue
pub mod Db
pub mod Sync
pub mod Status
mod Tests
