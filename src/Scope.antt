-- ===== src/Scope.antt =====
-- jobs/scope.py: which devices a run captures. `Platforms` maps a platform to a family of checks,
-- `Rows` has the rows, `Dispositions` the classification, `Promises` what each disposition says; the
-- others prove.
pub mod Platforms
pub mod Rows
pub mod Dispositions
pub mod FirstLoop
pub mod Coverage
pub mod Promises
pub mod Managed
pub mod Explained
