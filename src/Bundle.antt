-- ===== src/Bundle.antt =====
-- jobs/bundle.py: artifact names and the packing of a run's artifacts into zip parts.
pub mod Names
pub mod Archive
pub mod Packing
pub mod Capacity
pub mod Parts
pub mod Found
pub mod Reassembly
pub mod Sink
pub mod Finishing
pub mod Retries
pub mod Flags
pub mod Files
