-- ===== src/Proxy.antt =====
-- 3/src: an HTTP proxy that rewrites one request and relays the answer.
pub mod CString
pub mod Relay
pub mod Resolve
pub mod Client
pub mod Listen
pub mod Request
pub mod Headers
mod Tests
