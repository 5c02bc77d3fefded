-- ===== src/Proxy.antt =====
-- The parts of internal/proxy that keep state of their own.
pub mod LoadBalancer
pub mod LatencyHistory
pub mod OutboundManager
pub mod AutoPing
pub mod Tests
