-- ===== src/DiffCore.antt =====
-- jobs/diffcore.py: the comparison of two normalized views. The definitions stand in `Values`
-- (Python values), `Config` (compare configs), `Report` (diff dicts), `Band`, `Equality`,
-- `Numbers`, `Scrub`, `Stanzas`, `TextValues`, `Runs` and `Hunks`; the others prove.
pub mod Values
pub mod Config
pub mod Report
pub mod Band
pub mod Equality
pub mod Numbers
pub mod Verdicts
pub mod Agreement
pub mod Buckets
pub mod Counts
pub mod Scrub
pub mod Stanzas
pub mod TextValues
pub mod Runs
pub mod Scripts
pub mod Refined
pub mod Slides
pub mod Settled
pub mod Applied
pub mod Hunks
pub mod Texts
