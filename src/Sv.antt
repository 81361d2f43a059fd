-- ===== src/Sv.antt =====
-- sampled_values: the publisher and the subscriber of sampled values.
pub mod Application
pub mod Publisher
pub mod Subscriber
pub mod RoundTrip
