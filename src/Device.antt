-- ===== src/Device.antt =====
-- device/node: the emulated node.
pub mod Config
pub mod Signing
pub mod Base
pub mod Handlers
pub mod Node
pub mod Bridge
