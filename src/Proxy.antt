-- ===== src/Proxy.antt =====
-- internal/proxy: the server that puts the parts together.
pub mod Metrics
pub mod Discovery
pub mod Reply
pub mod Server
pub mod Bundling
pub mod Concurrent
