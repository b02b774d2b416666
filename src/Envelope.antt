-- ===== src/Envelope.antt =====
-- jobs/envelope.py: the counts of a snapshot and the summary of a diff report.
pub mod Summary
pub mod Totals
