-- ===== src/Sftp/Path/Normal.antt =====
-- What a normalised path looks like.
use rever_ssh.Prelude.{
  ℕ, ◌≡◌, ◌≢◌, refl, true, false, ◌||◌, List, [], ◌∷◌, ◌++◌, All, All-append, All-reverse, seq_eq,
  seq_eq_iff, codes, Bool-cases, inl, inr, ◌⊎◌, arith,
}
use rever_ssh.Exn.{ok, err, value_error}
use rever_ssh.Bytes.{Text}
use rever_ssh.Bytes.Strings.{split_on, split_on-All}
use rever_ssh.Sftp.Path.{
  FilePath, has_nul, pop_part, normalize_parts, dot_if_empty, is_absolute, root_of,
  normalize_sftp_path,
}

-- A component that names an entry of a directory: not empty, not `.` and not `..`, and no slash in
-- it.
pub record IsPart (part : Text) : Type 0 where
  pub not_empty : part ≢ []
  pub not_dot : part ≢ codes "."
  pub not_dots : part ≢ codes ".."
  pub no_slash : All (λ (c : ℕ). c ≢ b'/') part

abbrev pub IsNormal : FilePath → Type 0
IsNormal p = All IsPart p.parts

abbrev pub NoSlash : Text → Type 0
NoSlash part = All (λ (c : ℕ). c ≢ b'/') part

pub part_lem :
    (part : Text)
    → (seq_eq part [] || seq_eq part (codes ".")) ≡ false
    → seq_eq part (codes "..") ≡ false
    → NoSlash part
    → IsPart part
part_lem part e f h = record {
  not_empty = λ same. grind (arith, seq_eq_iff part [], same);
  not_dot = λ same. grind (arith, seq_eq_iff part (codes "."), same);
  not_dots = λ same. grind (arith, seq_eq_iff part (codes ".."), same);
  no_slash = h;
}

pop_part-IsPart : (kept : List Text) → All IsPart kept → All IsPart (pop_part kept)
unfolding pop_part
pop_part-IsPart [] h = tt
pop_part-IsPart (part ∷ kept) (hp, h) = h

normalize_parts-IsPart :
    (kept parts : List Text)
    → All IsPart kept
    → All NoSlash parts
    → All IsPart (normalize_parts kept parts)
unfolding normalize_parts
normalize_parts-IsPart kept [] hk hp = All-reverse IsPart kept hk
normalize_parts-IsPart kept (part ∷ rest) hk (h, hs) =
    elim (Bool-cases (seq_eq part [] || seq_eq part (codes "."))) [
      | inl e ↦ rw e (normalize_parts-IsPart kept rest hk hs)
      | inr e ↦ elim (Bool-cases (seq_eq part (codes ".."))) [
        | inl f ↦
            rw (e, f) (normalize_parts-IsPart (pop_part kept) rest (pop_part-IsPart kept hk) hs)
        | inr f ↦ rw (e, f) (normalize_parts-IsPart (part ∷ kept) rest (part_lem part e f h, hk) hs)
      ]
    ]

IsPart-NoSlash : (parts : List Text) → All IsPart parts → All NoSlash parts
IsPart-NoSlash [] h = tt
IsPart-NoSlash (part ∷ parts) (h, hs) = (h.no_slash, IsPart-NoSlash parts hs)

-- Whatever the text and the home directory, if `normalize_sftp_path` returns for a working directory
-- in normal form, then no component of the path is empty, `.` or `..` or holds a slash; and it
-- returns exactly for the texts without NUL.
pub normalize_sftp_path-IsNormal :
    (expanduser : Text → Text) (cwd : FilePath) (path : Text)
    → IsNormal cwd
    → ((has_nul path ≡ true) × (normalize_sftp_path expanduser cwd path ≡ err value_error))
      ⊎ ((p : FilePath) × (has_nul path ≡ false)
          × (normalize_sftp_path expanduser cwd path ≡ ok p)
          × IsNormal p)
unfolding normalize_sftp_path
normalize_sftp_path-IsNormal expanduser cwd path h = elim (Bool-cases (has_nul path)) [
  | inl e ↦ inl (e, rw e refl)
  | inr e ↦
      let expanded : Text = expanduser (dot_if_empty path) in
      elim (Bool-cases (is_absolute expanded)) [
        | inl f ↦ inr (
          record { root = root_of expanded; parts = normalize_parts [] (split_on b'/' expanded) },
          e,
          rw (e, f) refl,
          normalize_parts-IsPart [] (split_on b'/' expanded) tt (split_on-All b'/' expanded),
        )
        | inr f ↦ inr (
          record cwd { parts = normalize_parts [] (cwd.parts ++ split_on b'/' expanded) },
          e,
          rw (e, f) refl,
          normalize_parts-IsPart [] (cwd.parts ++ split_on b'/' expanded) tt (
              All-append NoSlash cwd.parts (split_on b'/' expanded) (IsPart-NoSlash cwd.parts h)
                (split_on-All b'/' expanded)),
        )
      ]
]
