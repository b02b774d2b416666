-- ===== src/BmcTarget.antt =====
-- jobs/bmc_target.py: which interface of a device is its BMC, and which address reaches it.
pub mod Rule
pub mod Preference
pub mod Choice
pub mod Verdict
