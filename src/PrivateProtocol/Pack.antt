-- ===== src/PrivateProtocol/Pack.antt =====
-- The pack functions of reverssh/private_protocol.py. `dumps` is `json.dumps` of the `extra` of
-- OPEN_CHANNEL.
use rever_ssh.Prelude.{ℕ, Bool, ◌++◌}
use rever_ssh.Exn.{Result, ok, ◌>>=◌}
use rever_ssh.Bytes.{Bytes, Text}
use rever_ssh.SshEncoding.Writer.{boolean, uint32, string, text}

unfoldable pub pack_register : Text → Result Bytes
pack_register identifier = text identifier

unfoldable pub pack_register_result : Bool → Text → Result Bytes
pack_register_result is_ok message = do m ← text message; ok (boolean is_ok ++ m)

unfoldable pub pack_auth_request : ℕ → Text → Text → Bytes → Result Bytes
pack_auth_request auth_id username fingerprint key_blob = do
  i ← uint32 auth_id
  u ← text username
  f ← text fingerprint
  k ← string key_blob
  ok (i ++ (u ++ (f ++ k)))

unfoldable pub pack_auth_response : ℕ → Bool → Bool → Result Bytes
pack_auth_response auth_id is_ok persist = do
  i ← uint32 auth_id
  ok (i ++ (boolean is_ok ++ boolean persist))

unfoldable pub pack_open_confirm : ℕ → Bool → Text → Result Bytes
pack_open_confirm channel_id is_ok message = do
  i ← uint32 channel_id
  m ← text message
  ok (i ++ (boolean is_ok ++ m))

unfoldable pub pack_channel_data : ℕ → Bytes → Result Bytes
pack_channel_data channel_id payload = do i ← uint32 channel_id; d ← string payload; ok (i ++ d)

unfoldable pub pack_channel_id : ℕ → Result Bytes
pack_channel_id channel_id = uint32 channel_id

unfoldable pub pack_channel_request : ℕ → Text → Bool → Bytes → Result Bytes
pack_channel_request channel_id request want_reply payload = do
  i ← uint32 channel_id
  r ← text request
  p ← string payload
  ok (i ++ (r ++ (boolean want_reply ++ p)))

unfoldable pub pack_extended_data : ℕ → ℕ → Bytes → Result Bytes
pack_extended_data channel_id data_type payload = do
  i ← uint32 channel_id
  t ← uint32 data_type
  d ← string payload
  ok (i ++ (t ++ d))

unfoldable pub pack_open_channel {ℓ} :
    {Extra : Type ℓ} → (Extra → Text) → ℕ → Text → Extra → Result Bytes
pack_open_channel dumps channel_id kind extra = do
  i ← uint32 channel_id
  k ← text kind
  x ← text (dumps extra)
  ok (i ++ (k ++ x))
