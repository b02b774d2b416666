-- ===== src/Examples.antt =====
-- Concrete runs of the modelled parts.
mod Comparisons
mod Sessions
mod RedfishFence
mod ProxmoxFence
mod Reads
mod Packing
mod Targets
mod Views
mod Joins
mod Texts
mod BmcClient
mod Finalization
mod Selections
mod Scopes
