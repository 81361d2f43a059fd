-- ===== src/Goose.antt =====
-- The GOOSE protocol: model/libiec61850/src/goose, and the application that publishes.
pub mod Publisher
pub mod Subscriber
pub mod Receiver
pub mod RoundTrip
pub mod Application
