-- ===== src/Bus.antt =====
-- The event bus of a session (namisync/dispatcher/event_bus.py).
pub mod Order
pub mod Stream
pub mod Pump
pub mod Hub
