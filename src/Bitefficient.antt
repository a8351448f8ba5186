-- ===== src/Bitefficient.antt =====
-- The bit-efficient encoding of messages: the format that writes it, the grammar that reads it,
-- and the parser that builds the message.
pub mod Qi
pub mod Reads
pub mod Decimal
pub mod Format
pub mod Grammar
pub mod Times
pub mod Parser
pub mod RoundTrip
