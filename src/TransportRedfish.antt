-- ===== src/TransportRedfish.antt =====
-- jobs/transport_redfish.py: the client of a server's BMC, with its fence, pacing and GET budgets.
-- `Records` has the records and messages, `Client` the operations, `Probes` the reachability probes,
-- `Collectors` whole collectors; the others prove.
pub mod Records
pub mod Client
pub mod Probes
pub mod Collectors
pub mod Footprint
pub mod Spacing
pub mod Tls
pub mod Budgets
