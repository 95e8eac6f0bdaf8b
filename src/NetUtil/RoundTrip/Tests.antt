-- ===== src/NetUtil/RoundTrip/Tests.antt =====
-- An IPv6 address with a port, with and without brackets.
use rever_ssh.Prelude.{ℕ, ◌≡◌, [], codes, arith, length}
use rever_ssh.Exn.{Result, ok}
use rever_ssh.Bytes.{Text}
use rever_ssh.NetUtil.{parse_host_port}
use rever_ssh.NetUtil.RoundTrip.{parse_host_port-plain, parse_host_port-bracketed}

-- Stands for `int`.
abbrev int : Text → Result ℕ
int t = ok (length t)

parse_host_port-plain_example : parse_host_port int [] (codes "a]:1:22") ≡ ok (codes "a]:1", 2)
parse_host_port-plain_example =
    parse_host_port-plain int [] b'a' (codes "]:1") (codes "22") (omega arith)
      (omega arith, (omega arith, tt))

parse_host_port-bracketed_example : parse_host_port int [] (codes "[::1]:22") ≡ ok (codes "::1", 2)
parse_host_port-bracketed_example =
    parse_host_port-bracketed int [] b':' (codes ":1") (codes "22")
      (omega arith, (omega arith, (omega arith, tt)))
