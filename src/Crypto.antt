-- ===== src/Crypto.antt =====
-- src/py_app_runner/crypto.
pub mod Values
pub mod Envelope
pub mod Framing
pub mod Fields
pub mod KeyCache
pub mod Opened
pub mod Authentic
mod Tests
