-- ===== src/Lib.antt =====
-- A model of the read-only test suite for network devices, hosts and their controllers.
--
-- The program captures the state of a device through a fenced transport, normalizes it into a
-- snapshot and compares two snapshots. The parts are, by file of the repository:
--   DiffCore      jobs/diffcore.py: one function for each comparison mode (`diff_equality_set` for
--                 `_diff_equality_set`, and so on), the tolerance bands and the verdicts; `text_opcodes`
--                 for `_text_opcodes`, with the block slides, and `diff_text` for `_diff_text`.
--   RedfishPaths  jobs/redfish_paths.py: `path_refusal` and `fence_path`.
--   ProxmoxPaths  jobs/proxmox_paths.py: the surface (one file for each area of the table), the
--                 identifier grammars, `volume_path`, `_query_value` and `fence_path`.
--   TransportSsh  jobs/transport_ssh.py: the allowlists and the session (`open_session` for `open`).
--   Context       jobs/context.py: `read` is `get` and `call`, `run_ssh` is itself, and `EchoGuard` is
--                 `_ChannelEchoGuard`.
--   BmcTarget     jobs/bmc_target.py: the BMC interface of a device and its address.
--   TransportRedfish jobs/transport_redfish.py: the client of a BMC; its `_send` is `send_get`, a
--                 collector with its budget blocks is a `Collector`.
--   TransportRestconf jobs/transport_restconf.py: the client of a RESTCONF server.
--   Bundle        jobs/bundle.py: sizes of archives, the packing into parts, artifact names, and the
--                 splitting of large artifacts with their reassembly; a `Sink` is a `ZipSink`.
--   Scope         jobs/scope.py: the platform of a device (`map_platform`) and the dispositions of the
--                 devices that a run selects (the two classifying loops of `resolve`).
--   Registry      jobs/registry.py: the checks, their selection by id, the advice of a shakedown.
--   Envelope      jobs/envelope.py: the counts of a snapshot and of a report.
--   Base, Numeric shared lists, texts (lists of code points), dicts in their order of insertion, and
--                 the numbers of Python as a parameter.
--   Examples      concrete runs.
-- A collector reads through the context, which reads through a transport; the transport sends only
-- what its fence returns. A redactor stands between a client's answer and the context's state.
--
-- Exceptions are values of a sum, state is passed on. A loop is structural in the list or text that it
-- walks, in a collector, or in a counter that the source's condition gives: the room of a sliding block,
-- the offsets of the parts. Only the digits of a number take fuel, the number itself, which
-- `number_of-digits` shows to be enough. Numbers are natural numbers; the sizes, levels and times of
-- the program are not negative.
--
-- Parameters, for code outside of the repository: Python's arithmetic (`Numeric`), str.lower, str and
-- repr, urllib.parse (`Urllib`), ipaddress (`Ipaddress`), the limits of zipfile (`Zipfile`), the decimal
-- digits of Unicode and the commands of jobs/proxmox_sources.py (`Environment`), the device or the
-- client with its answers (`Device`, `Client`), the line match of difflib (`Matcher`), json with base64
-- and hashing (`Codec`), the attachments of a bundle (`Run`), and the HTTP library, with the redirects
-- that it follows, and the clock (`Network`).
--
-- Not modelled: what a redirect leads to that the HTTP library follows on its own (the model keeps
-- only which URLs it fetched), values of a wrong type that a fence refuses first, log messages,
-- the channel loop of a Linux session, the dispatch of diff_check, the bytes of a zip part, the
-- selection of a scope and its manifest, the other transports, the collectors of the single checks
-- (normalizers of vendor payloads), and the jobs that tie the parts together.
pub mod Base
pub mod Numeric
pub mod DiffCore
pub mod RedfishPaths
pub mod TransportSsh
pub mod Context
pub mod ProxmoxPaths
pub mod BmcTarget
pub mod Bundle
pub mod Envelope
mod Examples
pub mod TransportRedfish
pub mod Registry
pub mod Scope
pub mod TransportRestconf
