-- ===== src/Relay/Connection.antt =====
-- `SSHConnection` after authentication, with the reverse client that it uses (reverssh/relay.py).
pub mod State
pub mod Objects
pub mod Fields
pub mod Global
pub mod Open
pub mod Loop
pub mod Frames
pub mod Forwarded
pub mod Events
