-- ===== src/SshEncoding.antt =====
-- reverssh/ssh_encoding.py: the SSH wire types. `Writer` has the functions that encode, `Reader`
-- the class that decodes; the proofs are in the modules below those two.
pub mod PublicKey
pub mod Writer
pub mod Reader
pub mod RoundTrip
pub mod Total
