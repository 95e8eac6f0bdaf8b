-- ===== src/Sock/Tests.antt =====
-- Reading from a stream in two pieces.
use rever_ssh.Prelude.{◌≡◌, refl, [], ◌∷◌, codes, arith}
use rever_ssh.Exn.{ok, err, eof_error}
use rever_ssh.Sock.{Sock, IsLive, pending, recv_exact}
use rever_ssh.Sock.Exact.{recv_exact_lem, recv_exact-eof}

abbrev sock : Sock
sock = record { incoming = codes "ab" ∷ codes "cde" ∷ []; sent = [] }

abbrev sock-IsLive : IsLive sock
sock-IsLive = (omega arith, (omega arith, tt))

recv_exact_lem_example :
    (s' : Sock) × (recv_exact 3 sock ≡ ok (codes "abc", s'))
    × (pending s' ≡ codes "de")
    × IsLive s'
    × (s'.sent ≡ [])
recv_exact_lem_example = recv_exact_lem 3 (codes "abc") (codes "de") sock refl sock-IsLive refl

recv_exact-eof_example : recv_exact 6 sock ≡ err eof_error
recv_exact-eof_example = recv_exact-eof 6 sock sock-IsLive (omega arith)
