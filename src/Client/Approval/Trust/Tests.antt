-- ===== src/Client/Approval/Trust/Tests.antt =====
-- Decisions on concrete operators.
use rever_ssh.Prelude.{
  ◌≡◌, refl, true, false, [], ◌∷◌, ◌++◌, none, some, codes, seq_eq, if◌then◌else◌,
}
use rever_ssh.Exn.{ok}
use rever_ssh.Bytes.{Text}
use rever_ssh.Client.Approval.{
  OperatorApproval, approve, approve_by, persist, contains, any_entry, splitlines, add_first, strip,
  lstrip, rstrip, is_space, is_break, is_entry, ask_operator, ask, is_one_of, lower,
}
use rever_ssh.Client.Approval.Trust.{
  IsFingerprint, IsClosed, IsClosedFile, IsTrusted, approve-persist, approve-IsTrusted,
}

abbrev fingerprint : Text
fingerprint = codes "SHA256:ab"

fingerprint-IsFingerprint : IsFingerprint fingerprint
unfolding is_space is_break is_entry
fingerprint-IsFingerprint = record {
  no_space = (refl, (refl, (refl, (refl, (refl, (refl, (refl, (refl, (refl, tt)))))))));
  no_break = (refl, (refl, (refl, (refl, (refl, (refl, (refl, (refl, (refl, tt)))))))));
  entry = refl;
}

-- A file with one other operator, and no allow-list.
abbrev approval : OperatorApproval
approval = record { known = some (codes "SHA256:cd" ++ b'\n' ∷ []); allowed_key_blobs = none }

approval-IsClosed : IsClosedFile approval.known
unfolding IsClosedFile IsClosed is_break
approval-IsClosed = refl

approve-persist_example : approve (persist fingerprint approval) false [] fingerprint [] ≡ (
    if seq_eq fingerprint fingerprint
    then ok (true, false)
    else approve approval false [] fingerprint [])
approve-persist_example =
    approve-persist fingerprint fingerprint approval false [] [] fingerprint-IsFingerprint
      approval-IsClosed refl

trusted :
    approve approval true (codes "what" ∷ codes " Trust" ∷ []) fingerprint [] ≡ ok (true, true)
unfolding approve approve_by ask_operator ask contains any_entry splitlines add_first strip lstrip
    rstrip is_space is_break is_entry is_one_of lower seq_eq
trusted = refl

approve-IsTrusted_example :
    (true ≡ true)
    × (approval.allowed_key_blobs ≡ none)
    × (true ≡ true)
    × (contains fingerprint approval.known ≡ false)
    × IsTrusted (codes "what" ∷ codes " Trust" ∷ [])
approve-IsTrusted_example =
    approve-IsTrusted approval true (codes "what" ∷ codes " Trust" ∷ []) fingerprint [] true trusted
