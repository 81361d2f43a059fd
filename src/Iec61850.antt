-- ===== src/Iec61850.antt =====
-- The common types of IEC 61850: model/libiec61850/src/iec61850/common/iec61850_common.cc.
pub mod Timestamp
pub mod Quality
pub mod Constraint
pub mod Names
