-- ===== src/Registry.antt =====
-- jobs/registry.py: the checks, their selection, and the advice of the shakedown job.
pub mod Checks
pub mod Selection
