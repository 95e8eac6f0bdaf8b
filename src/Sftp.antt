-- ===== src/Sftp.antt =====
-- reverssh/sftp.py: the SFTP subsystem of a session.
pub mod Codes
pub mod Path
pub mod Os
pub mod Server
pub mod Requests
pub mod Dispatch
