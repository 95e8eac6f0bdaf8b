-- ===== src/Relay/Negotiation.antt =====
-- `_first_common`, `_derive_key` and `_parse_kexinit` of reverssh/relay.py.
pub mod Choice
use rever_ssh.Prelude.{
  ℕ, zero, suc, ◌+◌, Bool, true, false, ◌||◌, List, [], ◌∷◌, ◌++◌, codes, seq_eq, length, take, ltb,
  ◌==◌, if◌then◌else◌,
}
use rever_ssh.Exn.{Result, ok, err, ssh_protocol_error, out_of_fuel}
use rever_ssh.Exn.{◌>>=◌ as bind}
use rever_ssh.Bytes.{Bytes, Text}
use rever_ssh.SshEncoding.Writer
use rever_ssh.SshEncoding.Reader.{
  Read, pure, lift, byte, boolean, uint32, name_list, take_bytes, eof, ◌>>=◌, ◌>>◌,
}
use rever_ssh.Relay.Messages.{ssh_msg_kexinit}

-- alg in names
mem : Text → List Text → Bool
mem alg [] = false
mem alg (name ∷ names) = seq_eq alg name || mem alg names

pub first_common : List Text → List Text → Result Text
unfolding mem
first_common [] server = err ssh_protocol_error
first_common (alg ∷ algs) server =
    let rest = first_common algs server in if mem alg server then ok alg else rest

-- `hashlib.sha256(b).digest()` is an argument.
module _ (sha256 : Bytes → Bytes) where
  -- The `while` loop. A digest is not empty, so `length` rounds are enough.
  extend_key : ℕ → Bytes → ℕ → Bytes → Result Bytes
  extend_key zero seed size out = err out_of_fuel
  extend_key (suc fuel) seed size out =
      let more = extend_key fuel seed size (out ++ sha256 (seed ++ out)) in
      if ltb (length out) size then more else ok out

  pub derive_key : ℕ → Bytes → Bytes → Bytes → ℕ → Result Bytes
  unfolding extend_key
  derive_key k exchange_hash session_id letter size = bind (Writer.mpint k) (λ k_bytes.
      bind
        (extend_key (suc size) (k_bytes ++ exchange_hash) size
          (sha256 (k_bytes ++ exchange_hash ++ letter ++ session_id)))
        (λ out. ok (take size out)))

pub record KexInit : Type 0 where
  pub kex : List Text
  pub hostkey : List Text
  pub c2s_cipher : List Text
  pub s2c_cipher : List Text
  pub c2s_mac : List Text
  pub s2c_mac : List Text
  pub c2s_compression : List Text
  pub s2c_compression : List Text

pub parse_kexinit : Read KexInit
parse_kexinit = do
  msg ← byte
  if msg == ssh_msg_kexinit
      then (do
        cookie ← take_bytes 16
        kex ← name_list
        hostkey ← name_list
        c2s_cipher ← name_list
        s2c_cipher ← name_list
        c2s_mac ← name_list
        s2c_mac ← name_list
        c2s_compression ← name_list
        s2c_compression ← name_list
        c2s_languages ← name_list
        s2c_languages ← name_list
        first_follows ← boolean
        reserved ← uint32
        eof
        pure (record {
          kex = kex;
          hostkey = hostkey;
          c2s_cipher = c2s_cipher;
          s2c_cipher = s2c_cipher;
          c2s_mac = c2s_mac;
          s2c_mac = s2c_mac;
          c2s_compression = c2s_compression;
          s2c_compression = s2c_compression;
        }))
      else lift (err ssh_protocol_error)
