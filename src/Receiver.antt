-- ===== src/Receiver.antt =====
-- src/v1/receiver.cpp, src/v2/receiver.cpp and src/v3/receiver.cpp.
pub mod Deliveries
pub mod Gaps
pub mod Expected
