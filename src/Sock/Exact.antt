-- ===== src/Sock/Exact.antt =====
-- `recv_exact` over the pieces in which the network cuts a stream.
use rever_ssh.Prelude.{
  ℕ, zero, suc, ◌+◌, ◌-◌, ◌≤◌, ◌<◌, ◌≡◌, refl, sym, ap, ◌∙◌, true, false, List, [], ◌∷◌, ◌++◌,
  append_assoc, append-nil, le→ltb_false, lt→ltb, arith, length, length-append, length-take,
  length-drop, take, drop, concat, All, take-append-drop, ltb, leb, Bool-cases, inl, inr,
}
use rever_ssh.Exn.{ok, err, eof_error}
use rever_ssh.Bytes.{Bytes}
use rever_ssh.Sock.{Sock, IsLive, pending, recv_piece, recv, recv_loop, recv_exact, is_empty}

abbrev IsPiece : Bytes → Type 0
IsPiece b = 0 < length b

-- A front of the same string that is not longer is a front of the front.
append_split :
    (b c x rest : Bytes)
    → b ++ c ≡ x ++ rest
    → length b ≤ length x
    → (y : Bytes) × (x ≡ b ++ y) × (c ≡ y ++ rest)
append_split [] c x rest e h = (x, refl, e)
append_split (a ∷ b) c [] rest e h = absurd (omega arith)
append_split (a ∷ b) c (d ∷ x) rest e h =
    let tails : b ++ c ≡ x ++ rest = ground arith in
    let heads : a ≡ d = ground arith in
    let (y, p, q) = append_split b c x rest tails (omega arith) in (y, cc, q)

-- One `recv` of a positive size takes a non-empty front that is not longer.
recv_piece_lem :
    (n : ℕ) (p : Bytes) (ps : List Bytes)
    → 0 < n
    → All IsPiece (p ∷ ps)
    → let (b, rest) = recv_piece n (p ∷ ps) in
      (0 < length b) × (length b ≤ n) × (b ++ concat rest ≡ p ++ concat ps) × All IsPiece rest
unfolding recv_piece
recv_piece_lem n p ps h (hp, hs) = elim (Bool-cases (leb (length p) n)) [
  | inl e ↦ rw e (hp, ground arith, refl, hs)
  | inr e ↦ rw e (
    ground (arith, length-take n p),
    omega (arith, length-take n p),
    sym (append_assoc (take n p) (drop n p) (concat ps))
        ∙ ap (λ (t : Bytes). t ++ concat ps) (take-append-drop n p),
    (ground (arith, length-drop n p), hs),
  )
]

abbrev sock : List Bytes → Bytes → Sock
sock ps sent = record { incoming = ps; sent = sent }

is_empty-false : (b : Bytes) → 0 < length b → is_empty b ≡ false
is_empty-false [] h = absurd (omega arith)
is_empty-false (x ∷ b) h = refl

-- The loop is short of `x`, and `x` is what comes next.
loop_fills :
    (fuel size : ℕ) (chunks x rest : Bytes) (ps : List Bytes) (sent : Bytes)
    → length chunks + length x ≡ size
    → concat ps ≡ x ++ rest
    → length x < fuel
    → All IsPiece ps
    → (ps' : List Bytes) × (recv_loop fuel size chunks (sock ps sent)
        ≡ ok (chunks ++ x, sock ps' sent))
      × (concat ps' ≡ rest)
      × All IsPiece ps'
unfolding recv_loop recv
loop_fills zero size chunks x rest ps sent len next short live = absurd (omega arith)
loop_fills (suc fuel) size chunks [] rest ps sent len next short live =
    let full : ltb (length chunks) size ≡ false = le→ltb_false _ _ (omega arith) in
    (ps, rw (full, append-nil), next, live)
loop_fills (suc fuel) size chunks (a ∷ x) rest [] sent len next short live =
    absurd (omega (arith, ap length next))
loop_fills (suc fuel) size chunks (a ∷ x) rest (p ∷ ps) sent len next short live =
    let n : ℕ = size - length chunks in
    let b : Bytes = (recv_piece n (p ∷ ps)).0 in
    let qs : List Bytes = (recv_piece n (p ∷ ps)).1 in
    let (some_byte, fits, same, live') = recv_piece_lem n p ps (omega arith) live in
    let (y, front, back) = append_split b (concat qs) (a ∷ x) rest (same ∙ next) (omega arith) in
    let lens : length (a ∷ x) ≡ length b + length y = ap length front ∙ length-append b y in
    let (qs', run, left, live'') =
      loop_fills fuel size (chunks ++ b) y rest qs sent (omega (arith, length-append chunks b)) back
        (omega arith) live' in
    let whole : chunks ++ b ++ y ≡ chunks ++ (a ∷ x) =
      append_assoc chunks b y ∙ ap (λ (t : Bytes). chunks ++ t) (sym front) in
    let open_ : ltb (length chunks) size ≡ true = lt→ltb _ _ (omega arith) in
    (
      qs',
      rw (open_, is_empty-false b some_byte)
          (run ∙ ap (λ (t : Bytes). ok (t, sock qs' sent)) whole),
      left,
      live'',
    )

-- The stream ends before the loop is done.
loop_starves :
    (fuel size : ℕ) (chunks : Bytes) (ps : List Bytes) (sent : Bytes)
    → length chunks + length (concat ps) < size
    → length (concat ps) < fuel
    → All IsPiece ps
    → recv_loop fuel size chunks (sock ps sent) ≡ err eof_error
unfolding recv_loop recv
loop_starves zero size chunks ps sent short enough live = absurd (omega arith)
loop_starves (suc fuel) size chunks [] sent short enough live =
    let open_ : ltb (length chunks) size ≡ true = lt→ltb _ _ (omega arith) in rw (open_, recv_piece)
loop_starves (suc fuel) size chunks (p ∷ ps) sent short enough live =
    let n : ℕ = size - length chunks in
    let b : Bytes = (recv_piece n (p ∷ ps)).0 in
    let qs : List Bytes = (recv_piece n (p ∷ ps)).1 in
    let (some_byte, fits, same, live') = recv_piece_lem n p ps (omega arith) live in
    let lens : length b + length (concat qs) ≡ length (p ++ concat ps) =
      sym (length-append b (concat qs)) ∙ ap length same in
    let open_ : ltb (length chunks) size ≡ true = lt→ltb _ _ (omega arith) in
    rw (open_, is_empty-false b some_byte)
      (loop_starves fuel size (chunks ++ b) qs sent (omega (arith, length-append chunks b))
        (omega arith) live')

-- If the bytes to come begin with `x`, `recv_exact` returns `x` and leaves what follows, however
-- the network cuts the stream.
pub recv_exact_lem :
    (size : ℕ) (x rest : Bytes) (s : Sock)
    → length x ≡ size
    → IsLive s
    → pending s ≡ x ++ rest
    → (s' : Sock) × (recv_exact size s ≡ ok (x, s'))
      × (pending s' ≡ rest)
      × IsLive s'
      × (s'.sent ≡ s.sent)
unfolding recv_exact
recv_exact_lem size x rest s len live next =
    let (ps, run, left, live') =
      loop_fills (suc size) size [] x rest s.incoming s.sent (omega arith) next (omega arith)
        live in
    (record { incoming = ps; sent = s.sent }, run, left, live', refl)

-- If fewer bytes are to come, it raises EOFError.
pub recv_exact-eof :
    (size : ℕ) (s : Sock) → IsLive s → length (pending s) < size → recv_exact size s ≡ err eof_error
unfolding recv_exact
recv_exact-eof size s live short =
    loop_starves (suc size) size [] s.incoming s.sent (omega arith) (omega arith) live
