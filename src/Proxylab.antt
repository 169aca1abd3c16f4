-- ===== src/Proxylab.antt =====
-- proxylab-handout: the cache of a web proxy (cache.c), and what a thread of the proxy does with a
-- request (proxy.c).
pub mod Cache
pub mod Text
pub mod Proxy
mod Tests
