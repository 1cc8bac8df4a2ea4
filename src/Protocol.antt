-- ===== src/Protocol.antt =====
-- pkg/protocol: the byte buffer of the wire format, the frames around a packet and the packets.
pub mod Buffer
pub mod Frame
pub mod Mask
pub mod Packets
pub mod Spells
pub mod Auras
