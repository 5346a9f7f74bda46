-- ===== src/Myc.antt =====
-- The package myc: what a node and its peers tell each other.
pub mod Recovery
pub mod Nodes
pub mod Protocol
pub mod Requests
pub mod Gossip
pub mod Hub
pub mod Relay
pub mod Session
pub mod Transport
pub mod Rounds
pub mod Router
