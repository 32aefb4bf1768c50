-- ===== src/Wbcm.antt =====
-- src/py_app_runner/wbcm: the connections of users and devices, and the messages fanned out to them.
pub mod Connections
pub mod Messages
pub mod Stream
mod Tidy
mod Owners
mod Delivery
mod Tests
