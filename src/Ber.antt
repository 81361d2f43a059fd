-- ===== src/Ber.antt =====
-- ASN.1 BER primitives: model/libiec61850/src/mms/asn1.
pub mod Length
pub mod Bytes
pub mod Primitive
pub mod Integer
pub mod Encoder
pub mod Decoder
