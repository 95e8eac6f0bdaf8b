-- ===== src/Sftp/Path.antt =====
-- `normalize_sftp_path` of reverssh/sftp.py, and the paths of `pathlib` as the server uses them: an
-- absolute path is its root and its components. `os.path.expanduser` is an argument.
pub mod Normal
use rever_ssh.Prelude.{
  ℕ, Bool, true, false, ◌||◌, List, [], ◌∷◌, ◌++◌, map, seq_eq, codes, ◌==◌, if◌then◌else◌,
}
use mathlib.Core.List.{reverse}
use rever_ssh.Exn.{Result, ok, err, value_error}
use rever_ssh.Bytes.{Text}
use rever_ssh.Bytes.Strings.{split_on, join_on}

pub record FilePath : Type 0 where
  pub root : Text
  pub parts : List Text

-- str(path)
unfoldable pub to_text : FilePath → Text
to_text p = p.root ++ join_on b'/' p.parts

-- path.parent; the root is its own parent
drop_last : List Text → List Text
drop_last [] = []
drop_last (a ∷ []) = []
drop_last (a ∷ b ∷ rest) = a ∷ drop_last (b ∷ rest)

unfoldable pub parent : FilePath → FilePath
unfolding drop_last
parent p = record p { parts = drop_last p.parts }

-- path / name, for a name that is one component; `pathlib` drops a dot
unfoldable pub child : FilePath → Text → FilePath
child p name = if seq_eq name (codes ".") then p else record p { parts = p.parts ++ name ∷ [] }

pub has_nul : Text → Bool
has_nul [] = false
has_nul (c ∷ cs) = c == 0 || has_nul cs

pop_part : List Text → List Text
pop_part [] = []
pop_part (a ∷ rest) = rest

-- The loop of `posixpath.normpath` on an absolute path; the kept components stand in reverse.
normalize_parts : List Text → List Text → List Text
unfolding pop_part
normalize_parts kept [] = reverse kept
normalize_parts kept (part ∷ rest) =
    normalize_parts
      (if seq_eq part [] || seq_eq part (codes ".")
        then kept
        else if seq_eq part (codes "..")
        then pop_part kept
        else part ∷ kept)
      rest

-- POSIX keeps exactly two slashes at the front.
root_of : Text → Text
root_of [] = codes "/"
root_of (a ∷ []) = codes "/"
root_of (a ∷ b ∷ []) = if b == b'/' then codes "//" else codes "/"
root_of (a ∷ b ∷ c ∷ rest) =
    if b == b'/' then (if c == b'/' then codes "/" else codes "//") else codes "/"

is_absolute : Text → Bool
is_absolute [] = false
is_absolute (c ∷ cs) = c == b'/'

dot_if_empty : Text → Text
dot_if_empty [] = codes "."
dot_if_empty (c ∷ cs) = c ∷ cs

pub normalize_sftp_path : (Text → Text) → FilePath → Text → Result FilePath
unfolding has_nul normalize_parts root_of is_absolute dot_if_empty
normalize_sftp_path expanduser cwd path =
    if has_nul path
    then err value_error
    else let expanded : Text = expanduser (dot_if_empty path) in
      if is_absolute expanded
      then ok
          (record { root = root_of expanded; parts = normalize_parts [] (split_on b'/' expanded) })
      else ok (record cwd { parts = normalize_parts [] (cwd.parts ++ split_on b'/' expanded) })
