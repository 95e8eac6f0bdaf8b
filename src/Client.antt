-- ===== src/Client.antt =====
-- reverssh/client.py: the reverse client.
pub mod Approval
pub mod Sender
