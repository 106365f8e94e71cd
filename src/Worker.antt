-- ===== src/Worker.antt =====
-- src/queue.rs: the worker that delivers jobs.
pub mod Circuit
pub mod Probe
pub mod Failure
pub mod Retry
pub mod Deliver
pub mod Exclusive
pub mod Health
pub mod Maintenance
pub mod Poll
pub mod Visibility
pub mod Stuck
pub mod Settled
pub mod Unreported
