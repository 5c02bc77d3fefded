-- ===== src/Config.antt =====
-- internal/config: the configuration of the local proxy ports and its manager. What the code
-- uses of Go's strings, net and time packages is a record that each operation takes.
pub mod ProxyPort
pub mod PortManager
pub mod OutboundConfig
pub mod Tests
