-- ===== src/Relay.antt =====
-- reverssh/relay.py: the relay between SSH operators and reverse clients.
pub mod Messages
pub mod Registry
pub mod Channel
pub mod Negotiation
pub mod Payloads
pub mod BindAddress
pub mod Auth
pub mod Connection
pub mod Handshake
