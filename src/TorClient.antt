-- ===== src/TorClient.antt =====
-- torclient.c: the connections to the Tor clients.
pub mod State
pub mod Lifecycle
pub mod Socket
pub mod Handshake
pub mod Output
pub mod Usage
pub mod ClientFile
pub mod Exchange
pub mod Password
