-- ===== src/Tests.antt =====
-- Concrete runs: a server with one procedure, a client that calls it, a publisher with its
-- subscriber, and the theorems applied to them. The conversion of wide strings is ASCII here.
pub mod Codecs
pub mod Systems
pub mod Links
pub mod Limits
pub mod Sockets
pub mod Datagrams
pub mod Session
pub mod Turns
pub mod Requests
pub mod Calling
pub mod Calls
pub mod Streams
pub mod Wires
