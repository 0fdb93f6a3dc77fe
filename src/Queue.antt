-- ===== src/Queue.antt =====
-- src/queue.rs: the job queue over the table `jobs`, one function for each method of `JobQueue`. A
-- statement of SQL is a function on the list of rows, read at the instant `now` that `NOW()` has in
-- it (microseconds); the identifiers that the program draws (`Uuid::now_v7`) are arguments, and so
-- are the rows that other transactions hold locked. The wake-up that is published over NATS after a
-- change is left out: it changes no row, and its failure is only logged.
pub mod Table
pub mod Enqueue
pub mod Lease
pub mod Control
pub mod Invariant
pub mod Preserve
pub mod Calls
pub mod Rows
pub mod Fencing
pub mod Order
pub mod Dedup
pub mod Approval
mod Tests
