-- ===== src/Tests.antt =====
-- Runs of the definitions on concrete inputs, and the theorems at concrete inputs.
mod Samples
mod Codec
mod Peers
mod Texts
mod Trees
mod Prefixes
mod Nodes
mod Handshakes
mod Lookups
mod Streams
mod Lives
mod Histories
