-- ===== src/Node.antt =====
-- src/node: the node's parts.
pub mod Counter
pub mod Events
pub mod Connections
pub mod Join
pub mod Dht
pub mod Closest
pub mod Dispatch
pub mod Lookup
pub mod Discover
pub mod Arrivals
pub mod Provider
pub mod Ping
pub mod Life
pub mod History
