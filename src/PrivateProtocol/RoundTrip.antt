-- ===== src/PrivateProtocol/RoundTrip.antt =====
-- The pack and unpack functions of the private protocol, pair by pair.
use rever_ssh.Prelude.{ℕ, ◌≡◌, Bool, ◌++◌, All, arith}
use rever_ssh.Exn.{ok, Result, >>=-eq-ok}
use rever_ssh.Bytes.{Bytes, Text}
use rever_ssh.Bytes.Utf8.{IsChar}
use rever_ssh.SshEncoding.Writer.{boolean, uint32, string, text}
use rever_ssh.SshEncoding.RoundTrip.{
  Ends-bind, Ends-last, Ends-eof, run-Ends, Reads-uint32, Reads-string, Reads-boolean, Reads-text,
  Reads-lift,
}
use rever_ssh.PrivateProtocol.Pack.{
  pack_register, pack_register_result, pack_auth_request, pack_auth_response, pack_open_confirm,
  pack_channel_data, pack_channel_id, pack_channel_request, pack_extended_data, pack_open_channel,
}
use rever_ssh.PrivateProtocol.Unpack.{
  unpack_register, unpack_register_result, unpack_auth_request, unpack_auth_response,
  unpack_open_confirm, unpack_channel_data, unpack_channel_id, unpack_channel_request,
  unpack_extended_data, unpack_open_channel,
}

pub unpack-pack_register :
    (t : Text) (p : Bytes) → All IsChar t → pack_register t ≡ ok p → unpack_register p ≡ ok t
unfolding pack_register unpack_register
unpack-pack_register t p ct h = run-Ends _ (Ends-last _ _ (Reads-text t ct h) (Ends-eof t))

pub unpack-pack_register_result :
    (b : Bool) (t : Text) (p : Bytes)
    → All IsChar t
    → pack_register_result b t ≡ ok p
    → unpack_register_result p ≡ ok (b, t)
unfolding pack_register_result unpack_register_result
unpack-pack_register_result b t p ct h =
    let (et, ht, h1) = >>=-eq-ok (text t) _ h in
    let shape : boolean b ++ et ≡ p = ground arith in
    rw (← shape) (
      run-Ends _
        (Ends-bind _ _ (Reads-boolean b) (Ends-last _ _ (Reads-text t ct ht) (Ends-eof (b, t)))))

pub unpack-pack_auth_request :
    (i : ℕ) (u : Text) (f : Text) (k : Bytes) (p : Bytes)
    → All IsChar u
    → All IsChar f
    → pack_auth_request i u f k ≡ ok p
    → unpack_auth_request p ≡ ok (i, u, f, k)
unfolding pack_auth_request unpack_auth_request
unpack-pack_auth_request i u f k p cu cf h =
    let (ei, hi, h1) = >>=-eq-ok (uint32 i) _ h in
    let (eu, hu, h2) = >>=-eq-ok (text u) _ h1 in
    let (ef, hf, h3) = >>=-eq-ok (text f) _ h2 in
    let (ek, hk, h4) = >>=-eq-ok (string k) _ h3 in
    let shape : ei ++ (eu ++ (ef ++ ek)) ≡ p = ground arith in
    rw (← shape) (
      run-Ends _ (
        Ends-bind _ _ (Reads-uint32 i hi) (
          Ends-bind _ _ (Reads-text u cu hu) (
            Ends-bind _ _ (Reads-text f cf hf)
              (Ends-last _ _ (Reads-string k hk) (Ends-eof (i, u, f, k)))))))

pub unpack-pack_auth_response :
    (i : ℕ) (b : Bool) (c : Bool) (p : Bytes)
    → pack_auth_response i b c ≡ ok p
    → unpack_auth_response p ≡ ok (i, b, c)
unfolding pack_auth_response unpack_auth_response
unpack-pack_auth_response i b c p h =
    let (ei, hi, h1) = >>=-eq-ok (uint32 i) _ h in
    let shape : ei ++ (boolean b ++ boolean c) ≡ p = ground arith in
    rw (← shape) (
      run-Ends _ (
        Ends-bind _ _ (Reads-uint32 i hi)
          (Ends-bind _ _ (Reads-boolean b) (Ends-last _ _ (Reads-boolean c) (Ends-eof (i, b, c))))))

pub unpack-pack_open_confirm :
    (i : ℕ) (b : Bool) (t : Text) (p : Bytes)
    → All IsChar t
    → pack_open_confirm i b t ≡ ok p
    → unpack_open_confirm p ≡ ok (i, b, t)
unfolding pack_open_confirm unpack_open_confirm
unpack-pack_open_confirm i b t p ct h =
    let (ei, hi, h1) = >>=-eq-ok (uint32 i) _ h in
    let (et, ht, h2) = >>=-eq-ok (text t) _ h1 in
    let shape : ei ++ (boolean b ++ et) ≡ p = ground arith in
    rw (← shape) (
      run-Ends _ (
        Ends-bind _ _ (Reads-uint32 i hi) (
          Ends-bind _ _ (Reads-boolean b)
            (Ends-last _ _ (Reads-text t ct ht) (Ends-eof (i, b, t))))))

pub unpack-pack_channel_data :
    (i : ℕ) (d : Bytes) (p : Bytes)
    → pack_channel_data i d ≡ ok p
    → unpack_channel_data p ≡ ok (i, d)
unfolding pack_channel_data unpack_channel_data
unpack-pack_channel_data i d p h =
    let (ei, hi, h1) = >>=-eq-ok (uint32 i) _ h in
    let (ed, hd, h2) = >>=-eq-ok (string d) _ h1 in
    let shape : ei ++ ed ≡ p = ground arith in
    rw (← shape) (
      run-Ends _
        (Ends-bind _ _ (Reads-uint32 i hi) (Ends-last _ _ (Reads-string d hd) (Ends-eof (i, d)))))

pub unpack-pack_channel_id :
    (i : ℕ) (p : Bytes) → pack_channel_id i ≡ ok p → unpack_channel_id p ≡ ok i
unfolding pack_channel_id unpack_channel_id
unpack-pack_channel_id i p h = run-Ends _ (Ends-last _ _ (Reads-uint32 i h) (Ends-eof i))

pub unpack-pack_channel_request :
    (i : ℕ) (r : Text) (b : Bool) (d : Bytes) (p : Bytes)
    → All IsChar r
    → pack_channel_request i r b d ≡ ok p
    → unpack_channel_request p ≡ ok (i, r, b, d)
unfolding pack_channel_request unpack_channel_request
unpack-pack_channel_request i r b d p cr h =
    let (ei, hi, h1) = >>=-eq-ok (uint32 i) _ h in
    let (er, hr, h2) = >>=-eq-ok (text r) _ h1 in
    let (ed, hd, h3) = >>=-eq-ok (string d) _ h2 in
    let shape : ei ++ (er ++ (boolean b ++ ed)) ≡ p = ground arith in
    rw (← shape) (
      run-Ends _ (
        Ends-bind _ _ (Reads-uint32 i hi) (
          Ends-bind _ _ (Reads-text r cr hr) (
            Ends-bind _ _ (Reads-boolean b)
              (Ends-last _ _ (Reads-string d hd) (Ends-eof (i, r, b, d)))))))

pub unpack-pack_extended_data :
    (i : ℕ) (t : ℕ) (d : Bytes) (p : Bytes)
    → pack_extended_data i t d ≡ ok p
    → unpack_extended_data p ≡ ok (i, t, d)
unfolding pack_extended_data unpack_extended_data
unpack-pack_extended_data i t d p h =
    let (ei, hi, h1) = >>=-eq-ok (uint32 i) _ h in
    let (et, ht, h2) = >>=-eq-ok (uint32 t) _ h1 in
    let (ed, hd, h3) = >>=-eq-ok (string d) _ h2 in
    let shape : ei ++ (et ++ ed) ≡ p = ground arith in
    rw (← shape) (
      run-Ends _ (
        Ends-bind _ _ (Reads-uint32 i hi) (
          Ends-bind _ _ (Reads-uint32 t ht)
            (Ends-last _ _ (Reads-string d hd) (Ends-eof (i, t, d))))))

pub unpack-pack_open_channel {ℓ} :
    {Extra : Type ℓ} (dumps : Extra → Text) (loads : Text → Result Extra) (i : ℕ) (k : Text)
    (x : Extra) (p : Bytes)
    → All IsChar k
    → All IsChar (dumps x)
    → loads (dumps x) ≡ ok x
    → pack_open_channel dumps i k x ≡ ok p
    → unpack_open_channel loads p ≡ ok (i, k, x)
unfolding pack_open_channel unpack_open_channel
unpack-pack_open_channel dumps loads i k x p ck cx law h =
    let (ei, hi, h1) = >>=-eq-ok (uint32 i) _ h in
    let (ek, hk, h2) = >>=-eq-ok (text k) _ h1 in
    let (ex, hx, h3) = >>=-eq-ok (text (dumps x)) _ h2 in
    let shape : ei ++ (ek ++ ex) ≡ p = ground arith in
    rw (← shape) (
      run-Ends _ (
        Ends-bind _ _ (Reads-uint32 i hi) (
          Ends-bind _ _ (Reads-text k ck hk) (
            Ends-last _ _ (Reads-text (dumps x) cx hx)
              (Ends-last _ _ (Reads-lift (loads (dumps x)) x law) (Ends-eof (i, k, x)))))))
