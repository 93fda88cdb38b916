-- ===== src/Ip.antt =====
-- The network transport (abstract_ip.h): the connection over time and the table of TCP clients.
pub mod Connection
pub mod Clients
pub mod Status
pub mod Commands
pub mod Tests
