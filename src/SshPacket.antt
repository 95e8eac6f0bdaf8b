-- ===== src/SshPacket.antt =====
-- reverssh/ssh_packet.py: the binary packet protocol over a socket. `recv_exact` is in Sock.antt.
pub mod Cipher
pub mod Padding
pub mod Stream
mod Tests
