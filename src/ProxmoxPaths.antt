-- ===== src/ProxmoxPaths.antt =====
-- jobs/proxmox_paths.py: the read surface of the Proxmox API and the fence in front of it.
pub mod Schema
pub mod Surface
pub mod Identifiers
pub mod Fence
pub mod Wire
