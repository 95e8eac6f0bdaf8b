-- ===== src/NetUtil/RoundTrip.antt =====
-- `parse_host_port` on an address made of a host and a port.
mod Tests
use rever_ssh.Prelude.{
  ℕ, ◌≡◌, ◌≢◌, refl, ap, ◌∙◌, Bool, true, false, List, [], ◌∷◌, ◌++◌, Option, none, some, All,
  arith, ◌==◌, ==_iff, if◌then◌else◌,
}
use rever_ssh.Exn.{Result, ok, ◌>>=◌}
use rever_ssh.Bytes.{Text}
use rever_ssh.NetUtil.{
  put_front, split_first, last_or, split_last, host_or, with_port, behind_bracket, bracketed, plain,
  parse_host_port,
}

abbrev pub Without : ℕ → Text → Type 0
Without c t = All (λ (x : ℕ). x ≢ c) t

ne→== : (x c : ℕ) → x ≢ c → (x == c) ≡ false
ne→== x c h = ground arith

split_first-append : (c : ℕ) (a b : Text) → Without c a → split_first c (a ++ c ∷ b) ≡ some (a, b)
unfolding split_first put_front
split_first-append c [] b h = rw ((==_iff c c).1 refl) refl
split_first-append c (x ∷ a) b (hx, h) = rw (ne→== x c hx) (rw (split_first-append c a b h) refl)

split_last-none : (c : ℕ) (b : Text) → Without c b → split_last c b ≡ none
unfolding split_last last_or
split_last-none c [] h = refl
split_last-none c (x ∷ b) (hx, h) = rw (split_last-none c b h) (rw (ne→== x c hx) refl)

split_last-append : (c : ℕ) (a b : Text) → Without c b → split_last c (a ++ c ∷ b) ≡ some (a, b)
unfolding split_last last_or
split_last-append c [] b h = rw (split_last-none c b h) (rw ((==_iff c c).1 refl) refl)
split_last-append c (x ∷ a) b h = rw (split_last-append c a b h) refl

module _ {P : Type 0} (int : Text → Result P) (default_host : Text) where
  -- For any reading of the port by `int`, raising included: `host:port`, with a host that is not
  -- empty and does not begin with `[`, and a port without a colon, is split at its last colon, so
  -- that an IPv6 host without brackets is kept whole.
  pub parse_host_port-plain :
      (c : ℕ) (host port : Text)
      → c ≢ b'['
      → Without b':' port
      → parse_host_port int default_host ((c ∷ host) ++ b':' ∷ port)
        ≡ (int port >>= λ p. ok (c ∷ host, p))
  unfolding parse_host_port plain with_port host_or
  parse_host_port-plain c host port h hp =
      rw (ne→== c b'[' h) (rw (split_last-append b':' (c ∷ host) port hp) refl)

  -- For any reading of the port by `int`, raising included, and any text as the port:
  -- `[host]:port`, with a host that is not empty and has no `]`, gives the host without its
  -- brackets.
  pub parse_host_port-bracketed :
      (c : ℕ) (host port : Text)
      → Without b']' (c ∷ host)
      → parse_host_port int default_host (b'[' ∷ ((c ∷ host) ++ b']' ∷ b':' ∷ port))
        ≡ (int port >>= λ p. ok (c ∷ host, p))
  unfolding parse_host_port bracketed behind_bracket with_port host_or
  parse_host_port-bracketed c host port hh =
      rw (split_first-append b']' (c ∷ host) (b':' ∷ port) hh) refl
