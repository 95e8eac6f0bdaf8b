-- ===== src/PrivateProtocol/Message/RoundTrip.antt =====
-- Packing and unpacking the messages of the private protocol.
use rever_ssh.Prelude.{◌≡◌, refl, ◌++◌, length}
use rever_ssh.Exn.{ok}
use rever_ssh.Bytes.{Bytes}
use rever_ssh.Bytes.Endian.{to_be}
use rever_ssh.Bytes.Utf8.RoundTrip.{All-IsScalar-IsChar}
use rever_ssh.SshEncoding.Writer.{boolean}
use rever_ssh.SshEncoding.Total.{uint32_total, string_total, text_total}
use rever_ssh.PrivateProtocol.Pack.{
  pack_register, pack_register_result, pack_auth_request, pack_auth_response, pack_open_confirm,
  pack_channel_data, pack_channel_id, pack_channel_request, pack_extended_data, pack_open_channel,
}
use rever_ssh.PrivateProtocol.RoundTrip.{
  unpack-pack_register, unpack-pack_register_result, unpack-pack_auth_request,
  unpack-pack_auth_response, unpack-pack_open_confirm, unpack-pack_channel_data,
  unpack-pack_channel_id, unpack-pack_channel_request, unpack-pack_extended_data,
  unpack-pack_open_channel,
}
use rever_ssh.PrivateProtocol.Message.{
  Message, Json, pack, unpack, frame_type_of, IsValid, register, register_result, auth_request,
  auth_response, open_channel, open_confirm, channel_data, channel_eof, channel_close,
  channel_request, channel_extended_data, heartbeat,
}

module _ {ℓ} {Extra : Type ℓ} (json : Json Extra) where
  pack_total : (m : Message Extra) → IsValid json m → (p : Bytes) × (pack json m ≡ ok p)
  unfolding pack pack_register pack_register_result pack_auth_request pack_auth_response
      pack_open_confirm pack_channel_data pack_channel_id pack_channel_request pack_extended_data
      pack_open_channel
  pack_total (register t) ht = let (et, pt) = text_total t ht in (et, rw (pt))
  pack_total (register_result b t) ht =
      let (et, pt) = text_total t ht in ((boolean b ++ et), rw (pt))
  pack_total (auth_request i u f k) (hi, hu, hf, hk) =
      let (eu, pu) = text_total u hu in
      let (ef, pf) = text_total f hf in
      (
        (to_be 4 i ++ (eu ++ (ef ++ (to_be 4 (length k) ++ k)))),
        rw (uint32_total i hi, pu, pf, string_total k hk),
      )
  pack_total (auth_response i b c) hi =
      ((to_be 4 i ++ (boolean b ++ boolean c)), rw (uint32_total i hi))
  pack_total (open_channel i k x) (hi, hk, hx) =
      let (ek, pk) = text_total k hk in
      let (ex, px) = text_total (json.dumps x) (json.ascii x, hx) in
      ((to_be 4 i ++ (ek ++ ex)), rw (uint32_total i hi, pk, px))
  pack_total (open_confirm i b t) (hi, ht) =
      let (et, pt) = text_total t ht in
      ((to_be 4 i ++ (boolean b ++ et)), rw (uint32_total i hi, pt))
  pack_total (channel_data i d) (hi, hd) =
      ((to_be 4 i ++ (to_be 4 (length d) ++ d)), rw (uint32_total i hi, string_total d hd))
  pack_total (channel_eof i) hi = (to_be 4 i, rw (uint32_total i hi))
  pack_total (channel_close i) hi = (to_be 4 i, rw (uint32_total i hi))
  pack_total (channel_request i r b d) (hi, hr, hd) =
      let (er, pr) = text_total r hr in
      (
        (to_be 4 i ++ (er ++ (boolean b ++ (to_be 4 (length d) ++ d)))),
        rw (uint32_total i hi, pr, string_total d hd),
      )
  pack_total (channel_extended_data i t d) (hi, ht, hd) = (
    (to_be 4 i ++ (to_be 4 t ++ (to_be 4 (length d) ++ d))),
    rw (uint32_total i hi, uint32_total t ht, string_total d hd),
  )
  pack_total (heartbeat p) h = (p, refl)

  unpack_packed :
      (m : Message Extra) (p : Bytes)
      → IsValid json m
      → pack json m ≡ ok p
      → unpack json (frame_type_of m) p ≡ ok m
  unfolding pack unpack frame_type_of
  unpack_packed (register t) p ht e = rw (unpack-pack_register t p (All-IsScalar-IsChar t ht.0) e)
  unpack_packed (register_result b t) p ht e =
      rw (unpack-pack_register_result b t p (All-IsScalar-IsChar t ht.0) e)
  unpack_packed (auth_request i u f k) p (hi, hu, hf, hk) e = rw (
      unpack-pack_auth_request i u f k p (All-IsScalar-IsChar u hu.0) (All-IsScalar-IsChar f hf.0)
        e)
  unpack_packed (auth_response i b c) p hi e = rw (unpack-pack_auth_response i b c p e)
  unpack_packed (open_channel i k x) p (hi, hk, hx) e = rw (
      unpack-pack_open_channel json.dumps json.loads i k x p (All-IsScalar-IsChar k hk.0)
        (All-IsScalar-IsChar (json.dumps x) (json.ascii x)) (json.loads-dumps x) e)
  unpack_packed (open_confirm i b t) p (hi, ht) e =
      rw (unpack-pack_open_confirm i b t p (All-IsScalar-IsChar t ht.0) e)
  unpack_packed (channel_data i d) p (hi, hd) e = rw (unpack-pack_channel_data i d p e)
  unpack_packed (channel_eof i) p hi e = rw (unpack-pack_channel_id i p e)
  unpack_packed (channel_close i) p hi e = rw (unpack-pack_channel_id i p e)
  unpack_packed (channel_request i r b d) p (hi, hr, hd) e =
      rw (unpack-pack_channel_request i r b d p (All-IsScalar-IsChar r hr.0) e)
  unpack_packed (channel_extended_data i t d) p (hi, ht, hd) e =
      rw (unpack-pack_extended_data i t d p e)
  unpack_packed (heartbeat q) p h e = cc

  -- Every message whose fields fit packs, and the unpack function of its frame type returns it.
  pub unpack-pack :
      (m : Message Extra)
      → IsValid json m
      → (p : Bytes) × (pack json m ≡ ok p) × (unpack json (frame_type_of m) p ≡ ok m)
  unpack-pack m h = let (p, e) = pack_total m h in (p, e, unpack_packed m p h e)
