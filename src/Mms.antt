-- ===== src/Mms.antt =====
-- MMS values and their BER encoding: model/libiec61850/src/mms/iso_mms.
pub mod Value
pub mod Numbers
pub mod UtcTime
pub mod Encode
pub mod BitString
