-- ===== src/NetUtil.antt =====
-- `parse_host_port` of reverssh/netutil.py. Python's `int` on a text is an argument.
pub mod RoundTrip
use rever_ssh.Prelude.{ℕ, [], ◌∷◌, Option, none, some, ◌==◌, if◌then◌else◌}
use rever_ssh.Exn.{Result, ok, err, value_error, ◌>>=◌}
use rever_ssh.Bytes.{Text}

put_front : ℕ → Option (Text × Text) → Option (Text × Text)
put_front x none = none
put_front x (some (a, b)) = some (x ∷ a, b)

-- What stands in front of the first `c` and behind it, as `index` finds it.
split_first : ℕ → Text → Option (Text × Text)
unfolding put_front
split_first c [] = none
split_first c (x ∷ xs) =
    let rest = split_first c xs in if x == c then some ([], xs) else put_front x rest

-- value.rsplit(c, 1)
last_or : ℕ → ℕ → Text → Option (Text × Text) → Option (Text × Text)
last_or c x xs (some (a, b)) = some (x ∷ a, b)
last_or c x xs none = if x == c then some ([], xs) else none

split_last : ℕ → Text → Option (Text × Text)
unfolding last_or
split_last c [] = none
split_last c (x ∷ xs) = last_or c x xs (split_last c xs)

host_or : Text → Text → Text
host_or default_host [] = default_host
host_or default_host (c ∷ cs) = c ∷ cs

module _ {P : Type 0} (int : Text → Result P) (default_host : Text) where
  -- The two ways to end: with the host and the text of the port, or by a ValueError.
  with_port : Text → Text → Result (Text × P)
  unfolding host_or
  with_port host port_text = do port ← int port_text; ok (host_or default_host host, port)

  behind_bracket : Text → Text → Result (Text × P)
  unfolding with_port
  behind_bracket host [] = err value_error
  behind_bracket host (c ∷ port_text) =
      if c == b':' then with_port host port_text else err value_error

  bracketed : Option (Text × Text) → Result (Text × P)
  unfolding behind_bracket
  bracketed none = err value_error
  bracketed (some (host, rest)) = behind_bracket host rest

  plain : Option (Text × Text) → Result (Text × P)
  unfolding with_port
  plain none = err value_error
  plain (some (host, port_text)) = with_port host port_text

  pub parse_host_port : Text → Result (Text × P)
  unfolding bracketed plain split_first split_last
  parse_host_port [] = plain (split_last b':' [])
  parse_host_port (c ∷ cs) =
      if c == b'[' then bracketed (split_first b']' cs) else plain (split_last b':' (c ∷ cs))
