-- ===== src/WorkerPool.antt =====
-- workerpool/workerpool..go, in children: the data, then the operations, then what holds of them.
pub mod Types
pub mod Setup
pub mod Scaling
pub mod Submit
pub mod Workers
pub mod Control
pub mod Schedule
pub mod Invariant
pub mod Startup
pub mod Growth
pub mod Accounting
pub mod Shutdown
pub mod Stopping
pub mod Clearing
pub mod SubmitWait
pub mod Naming
pub mod Ids
pub mod Example
pub mod Unstopped
pub mod Draining
mod Tests
