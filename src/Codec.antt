-- ===== src/Codec.antt =====
-- src/codec.rs: the BER encoder and decoder, and the v1 and v2c messages made of them.
pub mod Tags
pub mod Encoder
pub mod Decoder
pub mod Integers
pub mod Oids
pub mod Totality
pub mod Pdu
pub mod Response
pub mod Values
pub mod Varbinds
pub mod RoundTrip
pub mod Panics
pub mod Refusals
pub mod Requests
mod Examples
