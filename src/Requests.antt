-- ===== src/Requests.antt =====
-- src/py_app_runner/request_handler: the address of a client, the bounds of a page and the decorators.
pub mod ClientIp
pub mod Pagination
pub mod Decorators
mod Forged
mod Borrowed
mod Guarded
pub mod Audited
mod RateLimited
mod Tests
mod ActionTests
