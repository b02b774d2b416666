-- ===== src/TransportSsh.antt =====
-- jobs/transport_ssh.py: the allowlist of SSH commands and the session that sends them.
pub mod Allowlist
pub mod Runner
pub mod Safety
pub mod Sent
