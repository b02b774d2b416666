-- ===== src/Context.antt =====
-- jobs/context.py: the reads of a collector through one context per device.
pub mod Redaction
pub mod Reads
pub mod Privacy
pub mod Caching
pub mod EchoGuard
pub mod Quieting
pub mod Ssh
pub mod SshPrivacy
