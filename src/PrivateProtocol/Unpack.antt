-- ===== src/PrivateProtocol/Unpack.antt =====
-- The unpack functions of reverssh/private_protocol.py: the calls of the reader in their order.
-- `loads` is `json.loads` of the `extra` of OPEN_CHANNEL, which may raise.
use rever_ssh.Prelude.{ℕ, Bool}
use rever_ssh.Exn.{Result}
use rever_ssh.Bytes.{Bytes, Text}
use rever_ssh.SshEncoding.Reader.{run, pure, lift, eof, boolean, uint32, string, text, ◌>>=◌, ◌>>◌}

unfoldable pub unpack_register : Bytes → Result Text
unpack_register = run (do identifier ← text; eof; pure identifier)

unfoldable pub unpack_register_result : Bytes → Result (Bool × Text)
unpack_register_result = run (do is_ok ← boolean; message ← text; eof; pure (is_ok, message))

unfoldable pub unpack_auth_request : Bytes → Result (ℕ × Text × Text × Bytes)
unpack_auth_request = run (do
  auth_id ← uint32
  username ← text
  fingerprint ← text
  key_blob ← string
  eof
  pure (auth_id, username, fingerprint, key_blob))

unfoldable pub unpack_auth_response : Bytes → Result (ℕ × Bool × Bool)
unpack_auth_response =
    run
      (do auth_id ← uint32; is_ok ← boolean; persist ← boolean; eof; pure (auth_id, is_ok, persist))

unfoldable pub unpack_open_channel {ℓ} :
    {Extra : Type ℓ} → (Text → Result Extra) → Bytes → Result (ℕ × Text × Extra)
unpack_open_channel loads = run (do
  channel_id ← uint32
  kind ← text
  raw ← text
  extra ← lift (loads raw)
  eof
  pure (channel_id, kind, extra))

unfoldable pub unpack_open_confirm : Bytes → Result (ℕ × Bool × Text)
unpack_open_confirm = run (do
  channel_id ← uint32
  is_ok ← boolean
  message ← text
  eof
  pure (channel_id, is_ok, message))

unfoldable pub unpack_channel_data : Bytes → Result (ℕ × Bytes)
unpack_channel_data =
    run (do channel_id ← uint32; payload ← string; eof; pure (channel_id, payload))

unfoldable pub unpack_channel_id : Bytes → Result ℕ
unpack_channel_id = run (do channel_id ← uint32; eof; pure channel_id)

unfoldable pub unpack_channel_request : Bytes → Result (ℕ × Text × Bool × Bytes)
unpack_channel_request = run (do
  channel_id ← uint32
  request ← text
  want_reply ← boolean
  payload ← string
  eof
  pure (channel_id, request, want_reply, payload))

unfoldable pub unpack_extended_data : Bytes → Result (ℕ × ℕ × Bytes)
unpack_extended_data = run (do
  channel_id ← uint32
  data_type ← uint32
  payload ← string
  eof
  pure (channel_id, data_type, payload))
