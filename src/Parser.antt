-- ===== src/Parser.antt =====
-- The packet parser of the client (io.parser): packets as texts, and payloads of several packets.
pub mod Packet
pub mod Encode
pub mod Decode
pub mod Expression
pub mod Payload
pub mod Wire
