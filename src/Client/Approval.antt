-- ===== src/Client/Approval.antt =====
-- `KnownOperators` and `OperatorApproval` of reverssh/client.py, without the log lines. The file of
-- known fingerprints is the text that `read_text` returns, or none where it does not exist; the
-- answers at the terminal are the lines that `input` returns, up to the end of the input.
pub mod Trust
use rever_ssh.Prelude.{
  ℕ, ◌+◌, ◌≡◌, Bool, true, false, not, ◌&&◌, ◌||◌, List, [], ◌∷◌, ◌++◌, Option, none, some, codes,
  ltb, leb, ◌==◌, seq_eq, if◌then◌else◌,
}
use rever_ssh.Exn.{Result, ok, err, eof_error}
use rever_ssh.Bytes.{Bytes, Text}
use rever_ssh.Sock.{is_empty}

-- str.isspace of one character
pub is_space : ℕ → Bool
is_space c =
    (leb 9 c && leb c 13)
    || (leb 28 c && leb c 32)
    || c == 0x85
    || c == 0xa0
    || c == 0x1680
    || (leb 0x2000 c && leb c 0x200a)
    || c == 0x2028
    || c == 0x2029
    || c == 0x202f
    || c == 0x205f
    || c == 0x3000

-- where str.splitlines breaks
is_break : ℕ → Bool
is_break c =
    (leb 10 c && leb c 13) || (leb 28 c && leb c 30) || c == 0x85 || c == 0x2028 || c == 0x2029

lstrip : Text → Text
lstrip [] = []
lstrip (c ∷ cs) = let rest = lstrip cs in if is_space c then rest else c ∷ cs

rstrip : Text → Text
rstrip [] = []
rstrip (c ∷ cs) = let rest = rstrip cs in if is_space c && is_empty rest then [] else c ∷ rest

strip : Text → Text
strip t = rstrip (lstrip t)

-- The first character of the text belongs to its first line.
add_first : ℕ → List Text → List Text
add_first c [] = (c ∷ []) ∷ []
add_first c (line ∷ lines) = (c ∷ line) ∷ lines

-- text.splitlines(); the text comes from `read_text`, so it holds no "\r\n"
splitlines : Text → List Text
splitlines [] = []
splitlines (c ∷ cs) = if is_break c then [] ∷ splitlines cs else add_first c (splitlines cs)

-- str.lower, as far as the answers below need it: no other character becomes one of theirs
lower : Text → Text
lower [] = []
lower (c ∷ cs) = (if leb b'A' c && leb c b'Z' then c + 32 else c) ∷ lower cs

-- value and not value.startswith("#")
is_entry : Text → Bool
is_entry [] = false
is_entry (c ∷ cs) = not (c == b'#')

any_entry : Text → List Text → Bool
unfolding strip is_entry
any_entry fingerprint [] = false
any_entry fingerprint (line ∷ lines) =
    (is_entry (strip line) && seq_eq (strip line) fingerprint) || any_entry fingerprint lines

-- A file of known fingerprints.
abbrev pub KnownOperators : Type 0
KnownOperators = Option Text

pub contains : Text → KnownOperators → Bool
unfolding any_entry splitlines
contains fingerprint none = false
contains fingerprint (some file) = any_entry fingerprint (splitlines file)

-- fingerprint in {line.strip() for line in ... if line.strip()}
any_line : Text → List Text → Bool
unfolding strip
any_line fingerprint [] = false
any_line fingerprint (line ∷ lines) =
    (not (is_empty (strip line)) && seq_eq (strip line) fingerprint) || any_line fingerprint lines

pub add : Text → KnownOperators → KnownOperators
unfolding any_line splitlines
add fingerprint none = some (fingerprint ++ b'\n' ∷ [])
add fingerprint (some file) =
    if any_line fingerprint (splitlines file)
    then some file
    else some (file ++ fingerprint ++ b'\n' ∷ [])

pub record OperatorApproval : Type 0 where
  pub known : KnownOperators
  pub allowed_key_blobs : Option (List Bytes)

mem : Bytes → List Bytes → Bool
mem b [] = false
mem b (x ∷ xs) = seq_eq b x || mem b xs

is_one_of : Text → List Text → Bool
is_one_of t [] = false
is_one_of t (x ∷ xs) = seq_eq t x || is_one_of t xs

-- The `while` loop over the answers.
ask : List Text → Result (Bool × Bool)
unfolding strip lower is_one_of
ask [] = err eof_error
ask (line ∷ lines) =
    let answer = lower (strip line) in
    let again = ask lines in
    if is_one_of answer (codes "o" ∷ codes "once" ∷ codes "y" ∷ codes "yes" ∷ [])
    then ok (true, false)
    else if is_one_of answer (codes "t" ∷ codes "trust" ∷ [])
    then ok (true, true)
    else if is_one_of answer (codes "r" ∷ codes "reject" ∷ codes "n" ∷ codes "no" ∷ [] ∷ [])
    then ok (false, false)
    else again

ask_operator : KnownOperators → Bool → List Text → Text → Result (Bool × Bool)
unfolding ask contains
ask_operator known tty answers fingerprint =
    if contains fingerprint known
    then ok (true, false)
    else if not tty
    then ok (false, false)
    else ask answers

approve_by :
    Option (List Bytes) → KnownOperators → Bool → List Text → Text → Bytes → Result (Bool × Bool)
unfolding mem ask_operator
approve_by (some allowed) known tty answers fingerprint key_blob =
    if mem key_blob allowed then ok (true, false) else ok (false, false)
approve_by none known tty answers fingerprint key_blob = ask_operator known tty answers fingerprint

-- `tty` is sys.stdin.isatty(); the username is only logged and printed
pub approve : OperatorApproval → Bool → List Text → Text → Bytes → Result (Bool × Bool)
unfolding approve_by
approve a tty answers fingerprint key_blob =
    approve_by a.allowed_key_blobs a.known tty answers fingerprint key_blob

is_strict : Option (List Bytes) → Bool
is_strict none = false
is_strict (some allowed) = true

pub persist : Text → OperatorApproval → OperatorApproval
unfolding is_strict add
persist fingerprint a =
    if is_strict a.allowed_key_blobs then a else record a { known = add fingerprint a.known }
