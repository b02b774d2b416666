-- ===== src/RedfishPaths.antt =====
-- jobs/redfish_paths.py: the read-only fence in front of every Redfish request.
pub mod Fence
pub mod Wire
