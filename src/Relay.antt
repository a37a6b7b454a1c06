-- ===== src/Relay.antt =====
-- internal/pcap and internal/pcap/handlers: the relay between a local capture agent and a browser.
pub mod Session
pub mod Encoding
pub mod Store
pub mod Delivery
pub mod Handler
pub mod Endpoint
