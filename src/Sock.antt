-- ===== src/Sock.antt =====
-- A connected socket as the program sees it: `recv`, `sendall`, and the `recv_exact` of
-- reverssh/ssh_packet.py.
pub mod Exact
mod Tests
use rever_ssh.Prelude.{
  ℕ, zero, suc, ◌-◌, ◌<◌, ◌≡◌, Bool, true, false, List, [], ◌∷◌, ◌++◌, length, take, drop, concat,
  All, ltb, leb, if◌then◌else◌,
}
use rever_ssh.Exn.{Result, ok, err, eof_error, out_of_fuel}
use rever_ssh.Bytes.{Bytes}

-- What the peer has sent, in the pieces in which the network hands it over, up to the end of the
-- stream; and all that the program has written.
pub record Sock : Type 0 where
  pub incoming : List Bytes
  pub sent : Bytes

-- No piece is empty: an empty answer of `recv` means the end of the stream.
abbrev pub IsLive : Sock → Type 0
IsLive s = All (λ (piece : Bytes). 0 < length piece) s.incoming

abbrev pub pending : Sock → Bytes
pending s = concat s.incoming

recv_piece : ℕ → List Bytes → Bytes × List Bytes
recv_piece n [] = ([], [])
recv_piece n (piece ∷ pieces) =
    if leb (length piece) n then (piece, pieces) else (take n piece, drop n piece ∷ pieces)

-- sock.recv(n)
unfoldable pub recv : ℕ → Sock → Bytes × Sock
unfolding recv_piece
recv n s = let (b, rest) = recv_piece n s.incoming in (b, record s { incoming = rest })

-- sock.sendall(b)
unfoldable pub sendall : Bytes → Sock → Sock
sendall b s = record s { sent = s.sent ++ b }

abbrev pub is_empty {ℓ} : {A : Type ℓ} → List A → Bool
is_empty [] = true
is_empty (x ∷ xs) = false

-- The `while` loop of `recv_exact`; a round that does not end it adds a byte at least.
recv_loop : ℕ → ℕ → Bytes → Sock → Result (Bytes × Sock)
recv_loop zero size chunks s = err out_of_fuel
recv_loop (suc fuel) size chunks s =
    let (chunk, s') = recv (size - length chunks) s in
    let more = recv_loop fuel size (chunks ++ chunk) s' in
    if ltb (length chunks) size
    then (if is_empty chunk then err eof_error else more)
    else ok (chunks, s)

unfoldable pub recv_exact : ℕ → Sock → Result (Bytes × Sock)
unfolding recv_loop recv
recv_exact size s = recv_loop (suc size) size [] s
