-- ===== src/Bytes.antt =====
-- Byte strings: Python's `bytes` as lists of numbers below 256.
pub mod Endian
pub mod Utf8
pub mod Bits
pub mod Table
pub mod Strings
use rever_ssh.Prelude.{ℕ, ◌<◌, List}

abbrev pub Bytes : Type 0
Bytes = List ℕ

-- Python's `str`: a list of code points.
abbrev pub Text : Type 0
Text = List ℕ

abbrev pub IsByte : ℕ → Type 0
IsByte b = b < 256
