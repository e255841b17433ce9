-- ===== src/Proxy.antt =====
-- src/proxy: load balancing and forwarding.
pub mod Loader
pub mod Server
pub mod Threads
pub mod Ping
pub mod Packet
