-- ===== src/PrivateProtocol.antt =====
-- reverssh/private_protocol.py: the frames between the relay and a reverse client.
pub mod Pack
pub mod Unpack
pub mod RoundTrip
pub mod Frame
pub mod FrameRoundTrip
pub mod Message
mod Tests
