-- ===== src/PrivateProtocol/Message.antt =====
-- The payloads of the private protocol as one type: a frame's type with the arguments of its pack
-- function. The `extra` of OPEN_CHANNEL and its JSON form are parameters: `loads` undoes `dumps`,
-- and `dumps` returns a text of ASCII characters, as `json` documents of its default form.
pub mod RoundTrip
use rever_ssh.Prelude.{ℕ, ◌*◌, ◌≤◌, ◌≡◌, Bool, All, length}
use rever_ssh.Exn.{Result, ok, ◌>>=◌}
use rever_ssh.Bytes.{Bytes, Text}
use rever_ssh.Bytes.Utf8.RoundTrip.{IsScalar}
use rever_ssh.SshEncoding.Total.{IsUint32, IsShortText}
use rever_ssh.PrivateProtocol.Pack.{
  pack_register, pack_register_result, pack_auth_request, pack_auth_response, pack_open_confirm,
  pack_channel_data, pack_channel_id, pack_channel_request, pack_extended_data, pack_open_channel,
}
use rever_ssh.PrivateProtocol.Unpack.{
  unpack_register, unpack_register_result, unpack_auth_request, unpack_auth_response,
  unpack_open_confirm, unpack_channel_data, unpack_channel_id, unpack_channel_request,
  unpack_extended_data, unpack_open_channel,
}
use rever_ssh.PrivateProtocol.Frame.{FrameType}

pub record Json {ℓ} (Extra : Type ℓ) : Type ℓ where
  pub dumps : Extra → Text
  pub loads : Text → Result Extra
  pub loads-dumps : (x : Extra) → loads (dumps x) ≡ ok x
  pub ascii : (x : Extra) → All IsScalar (dumps x)

pub data Message {ℓ} (Extra : Type ℓ) : Type ℓ where
  register : Text → Message Extra
  register_result : Bool → Text → Message Extra
  auth_request : ℕ → Text → Text → Bytes → Message Extra
  auth_response : ℕ → Bool → Bool → Message Extra
  open_channel : ℕ → Text → Extra → Message Extra
  open_confirm : ℕ → Bool → Text → Message Extra
  channel_data : ℕ → Bytes → Message Extra
  channel_eof : ℕ → Message Extra
  channel_close : ℕ → Message Extra
  channel_request : ℕ → Text → Bool → Bytes → Message Extra
  channel_extended_data : ℕ → ℕ → Bytes → Message Extra
  heartbeat : Bytes → Message Extra

unfoldable pub frame_type_of {ℓ} : {Extra : Type ℓ} → Message Extra → FrameType
frame_type_of (register _) = FrameType.register
frame_type_of (register_result _ _) = FrameType.register_result
frame_type_of (auth_request _ _ _ _) = FrameType.auth_request
frame_type_of (auth_response _ _ _) = FrameType.auth_response
frame_type_of (open_channel _ _ _) = FrameType.open_channel
frame_type_of (open_confirm _ _ _) = FrameType.open_confirm
frame_type_of (channel_data _ _) = FrameType.channel_data
frame_type_of (channel_eof _) = FrameType.channel_eof
frame_type_of (channel_close _) = FrameType.channel_close
frame_type_of (channel_request _ _ _ _) = FrameType.channel_request
frame_type_of (channel_extended_data _ _ _) = FrameType.channel_extended_data
frame_type_of (heartbeat _) = FrameType.heartbeat

module _ {ℓ} {Extra : Type ℓ} (json : Json Extra) where
  unfoldable pub pack : Message Extra → Result Bytes
  pack (register identifier) = pack_register identifier
  pack (register_result is_ok message) = pack_register_result is_ok message
  pack (auth_request auth_id username fingerprint key_blob) =
      pack_auth_request auth_id username fingerprint key_blob
  pack (auth_response auth_id is_ok persist) = pack_auth_response auth_id is_ok persist
  pack (open_channel channel_id kind extra) = pack_open_channel json.dumps channel_id kind extra
  pack (open_confirm channel_id is_ok message) = pack_open_confirm channel_id is_ok message
  pack (channel_data channel_id payload) = pack_channel_data channel_id payload
  pack (channel_eof channel_id) = pack_channel_id channel_id
  pack (channel_close channel_id) = pack_channel_id channel_id
  pack (channel_request channel_id request want_reply payload) =
      pack_channel_request channel_id request want_reply payload
  pack (channel_extended_data channel_id data_type payload) =
      pack_extended_data channel_id data_type payload
  pack (heartbeat payload) = ok payload

  -- The unpack function that the receivers call for a frame's type, and the message it stands for.
  unfoldable pub unpack : FrameType → Bytes → Result (Message Extra)
  unpack FrameType.register p = do t ← unpack_register p; ok (register t)
  unpack FrameType.register_result p = do
    (b, t) ← unpack_register_result p
    ok (register_result b t)
  unpack FrameType.auth_request p = do
    (i, u, f, k) ← unpack_auth_request p
    ok (auth_request i u f k)
  unpack FrameType.auth_response p = do (i, b, c) ← unpack_auth_response p; ok (auth_response i b c)
  unpack FrameType.open_channel p = do
    (i, k, x) ← unpack_open_channel json.loads p
    ok (open_channel i k x)
  unpack FrameType.open_confirm p = do (i, b, t) ← unpack_open_confirm p; ok (open_confirm i b t)
  unpack FrameType.channel_data p = do (i, d) ← unpack_channel_data p; ok (channel_data i d)
  unpack FrameType.channel_eof p = do i ← unpack_channel_id p; ok (channel_eof i)
  unpack FrameType.channel_close p = do i ← unpack_channel_id p; ok (channel_close i)
  unpack FrameType.channel_request p = do
    (i, r, b, d) ← unpack_channel_request p
    ok (channel_request i r b d)
  unpack FrameType.channel_extended_data p = do
    (i, t, d) ← unpack_extended_data p
    ok (channel_extended_data i t d)
  unpack FrameType.heartbeat p = ok (heartbeat p)

  -- What fits the fields: 32-bit numbers, and strings whose length is one.
  abbrev pub IsValid : Message Extra → Type 0
  IsValid (register t) = IsShortText t
  IsValid (register_result b t) = IsShortText t
  IsValid (auth_request i u f k) = IsUint32 i × IsShortText u × IsShortText f × IsUint32 (length k)
  IsValid (auth_response i b c) = IsUint32 i
  IsValid (open_channel i k x) =
      IsUint32 i × IsShortText k × (4 * length (json.dumps x) ≤ 0xffffffff)
  IsValid (open_confirm i b t) = IsUint32 i × IsShortText t
  IsValid (channel_data i d) = IsUint32 i × IsUint32 (length d)
  IsValid (channel_eof i) = IsUint32 i
  IsValid (channel_close i) = IsUint32 i
  IsValid (channel_request i r b d) = IsUint32 i × IsShortText r × IsUint32 (length d)
  IsValid (channel_extended_data i t d) = IsUint32 i × IsUint32 t × IsUint32 (length d)
  IsValid (heartbeat p) = Unit
