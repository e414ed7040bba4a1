-- ===== src/Wire.antt =====
-- include/common/itch_messages.hpp and include/common/mold_udp64.hpp: the wire format.
pub mod Bytes
pub mod Layout
pub mod Inside
pub mod Header
pub mod AddOrder
pub mod OrderExecuted
pub mod OrderCancel
pub mod OrderDelete
pub mod OrderReplace
pub mod Message
