-- ===== src/Jobs.antt =====
-- The background jobs (app/services/jobs.py): `JobService` over the `jobs` collection.
--
-- Every call of the data service is one atomic operation on the collection. A method's readings of
-- the clock are arguments. A registered handler is a function of the payload which finishes or
-- raises (a timeout raises too); `random.uniform` is an argument, a function of its upper limit.
pub mod Model
pub mod Invariant
pub mod Exclusion
pub mod Outcome
pub mod Queue
mod Tests
unfoldable pub use Model.*
