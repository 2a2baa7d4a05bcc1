-- ===== src/Node/Connections/OverStream.antt =====
-- Packets of src/node/connections.rs on a test stream of src/stream.rs.
use tewta.PeerMap
