-- ===== src/Protocol.antt =====
-- The packet code of internal/protocol: protocol.go and raknet.go.
pub mod Wire
pub mod VarInt
pub mod Frame
pub mod Packets
pub mod RakNet
pub mod Fragments
pub mod Tests
