-- ===== src/Sftp/Requests.antt =====
-- The requests of `SFTPServer` (reverssh/sftp.py), over what stands behind the request's id.
use rever_ssh.Prelude.{
  ℕ, ◌+◌, Bool, not, ◌&&◌, ◌||◌, List, [], ◌∷◌, ◌++◌, Option, none, some, codes, length, take, drop,
  seq_eq, ◌==◌, bit_and, if◌then◌else◌,
}
use rever_ssh.Exn.{Result, ok, key_error, attribute_error}
use rever_ssh.Exn.{◌>>=◌ as bind}
use rever_ssh.Bytes.{Bytes, Text}
use rever_ssh.SshEncoding.Writer
use rever_ssh.SshEncoding.Reader
use rever_ssh.SshEncoding.Reader.{Read, run}
use rever_ssh.Sftp.Codes
use rever_ssh.Sftp.Path.{FilePath, normalize_sftp_path, parent, child, to_text}
use rever_ssh.Sftp.Os.{Failure, exn, permission_error, os_failure, Outcome, done, raised, Stat, Os}
use rever_ssh.Sftp.Server.{
  Handle, directory, file, Server, Step, ◌>>=◌, ◌>>◌, pure, fail, lift, ask, act, get_state,
  put_handles, reply, status, find_handle, new_handle, close_handle, attrs_from_stat,
}
use rever_ssh.Dict
use rever_ssh.Dict.{seq_key}

-- errno.ENOENT, ENOTDIR, EACCES and EPERM of Linux
pub status_from_oserror : ℕ → ℕ
status_from_oserror errno =
    if errno == 2 || errno == 20
    then Codes.ssh_fx_no_such_file
    else if errno == 13 || errno == 1
    then Codes.ssh_fx_permission_denied
    else Codes.ssh_fx_failure

-- The `except` clauses of `_handle_packet`: the code and the message of the answer.
pub failure_status : Failure → ℕ × Text
failure_status (exn key_error m) = (Codes.ssh_fx_failure, codes "invalid handle")
failure_status (exn e m) = (Codes.ssh_fx_failure, m)
failure_status (permission_error m) = (Codes.ssh_fx_permission_denied, m)
failure_status (os_failure errno m) = (status_from_oserror errno, m)

-- `except OSError`, which catches PermissionError too
or_else : {F A : Type 0} → Outcome A × Server F → Step F A → Outcome A × Server F
or_else (done a, s) handler = (done a, s)
or_else (raised (exn e m), s) handler = (raised (exn e m), s)
or_else (raised (permission_error m), s) handler = handler s
or_else (raised (os_failure errno m), s) handler = handler s

pub except_os_error : {F A : Type 0} → Step F A → Step F A → Step F A
unfolding or_else
except_os_error body handler s = or_else (body s) handler

-- flags & flag
has_flag : ℕ → ℕ → Bool
has_flag flags flag = not (bit_and flags flag == 0)

-- The mode before the file is looked for, and the one that the file is opened with.
pub first_mode : ℕ → Text
unfolding has_flag
first_mode flags =
    if has_flag flags Codes.ssh_fxf_read && has_flag flags Codes.ssh_fxf_write
    then codes "r+b"
    else if has_flag flags Codes.ssh_fxf_write
    then (if has_flag flags Codes.ssh_fxf_append
        then codes "ab"
        else if has_flag flags Codes.ssh_fxf_trunc
        then codes "wb"
        else codes "r+b")
    else codes "rb"

pub open_mode : ℕ → Bool → Text
unfolding first_mode has_flag
open_mode flags exists =
    if has_flag flags Codes.ssh_fxf_creat && seq_eq (first_mode flags) (codes "r+b") && not exists
    then codes "w+b"
    else first_mode flags

-- 'dict' object has no attribute ...
no_attribute : Text → Failure
no_attribute attribute =
    exn attribute_error (codes "'dict' object has no attribute '" ++ (attribute ++ codes "'"))

two_texts : Read (Text × Text)
two_texts = Reader.◌>>=◌ Reader.text (λ a. Reader.◌>>=◌ Reader.text (λ b. Reader.pure (a, b)))

module _ {F : Type 0} (os : Os F) where
  pub normalize : Text → Step F FilePath
  normalize path s = lift os (normalize_sftp_path os.expanduser s.cwd path) s

  -- The method of a file object, where the object may be a directory's dict.
  as_file : Text → Handle → Step F ℕ
  as_file attribute (file f) = pure f
  as_file attribute (directory path entries offset) = fail (no_attribute attribute)

  -- What `path.resolve` and `os.stat` find, or the path itself with its parent's attributes.
  resolved_stat : FilePath → Step F (FilePath × Stat)
  resolved_stat path = do
    resolved ← ask (os.path_resolve path)
    st ← ask (os.os_stat resolved)
    pure (resolved, st)

  fallback_stat : FilePath → Step F (FilePath × Stat)
  fallback_stat path = do
    s ← get_state
    st ← ask (os.os_stat (if os.path_exists (parent path) s.world then parent path else s.cwd))
    pure (path, st)

  pub realpath : ℕ → Text → Step F (Unit {0})
  unfolding resolved_stat fallback_stat
  realpath request_id path_text = do
    path ← normalize path_text
    (resolved, st) ← except_os_error (resolved_stat path) (fallback_stat path)
    let name = Writer.text (to_text resolved)
    reply os Codes.ssh_fxp_name request_id (
        bind (Writer.uint32 1)
          (λ one. bind name (λ a. bind (attrs_from_stat st) (λ b. ok (one ++ (a ++ (a ++ b)))))))

  -- path.parent != path
  has_parent : FilePath → Bool
  has_parent path = not (length path.parts == 0)

  pub opendir : ℕ → Text → Step F (Unit {0})
  unfolding has_parent
  opendir request_id path_text = do
    path ← normalize path_text
    names ← ask (os.os_scandir path)
    let entries = codes "." ∷ ((if has_parent path then codes ".." ∷ [] else []) ++ names)
    handle ← new_handle os (directory path entries 0)
    reply os Codes.ssh_fxp_handle request_id (Writer.string handle)

  entry_stat : FilePath → Step F (Option Stat)
  entry_stat full = do st ← ask (os.os_lstat full); pure (some st)

  -- One entry of the answer; an entry whose lstat fails is skipped.
  entry_bytes : Text → Option Stat → Result Bytes
  entry_bytes name none = ok []
  entry_bytes name (some st) = bind (Writer.text name) (λ a.
      bind (Writer.text (os.longname name st))
        (λ b. bind (attrs_from_stat st) (λ c. ok (a ++ (b ++ c)))))

  -- The loop over the batch.
  batch_bytes : FilePath → List Text → Step F Bytes
  unfolding entry_stat entry_bytes
  batch_bytes base [] = pure []
  batch_bytes base (name ∷ names) = do
    st ← except_os_error (entry_stat (child base name)) (pure none)
    entry ← lift os (entry_bytes name st)
    rest ← batch_bytes base names
    pure (entry ++ rest)

  list_directory : ℕ → Bytes → Handle → Step F (Unit {0})
  unfolding batch_bytes
  list_directory request_id handle (file f) =
      status os request_id Codes.ssh_fx_failure (codes "not a directory")
  list_directory request_id handle (directory base entries offset) = do
    let batch = take 64 (drop offset entries)
    s ← get_state
    put_handles (Dict.put handle (directory base entries (offset + length batch)) s.handles)
    if length batch == 0
        then status os request_id Codes.ssh_fx_eof (codes "end of directory")
        else (do
          listed ← batch_bytes base batch
          reply os Codes.ssh_fxp_name request_id
              (bind (Writer.uint32 (length batch)) (λ count. ok (count ++ listed))))

  pub readdir : ℕ → Bytes → Step F (Unit {0})
  unfolding list_directory
  readdir request_id handle = do h ← find_handle os handle; list_directory request_id handle h

  -- raise FileExistsError(path)
  check_exclusive : ℕ → FilePath → Step F (Unit {0})
  check_exclusive flags path = do
    s ← get_state
    if has_flag flags Codes.ssh_fxf_excl && os.path_exists path s.world
        then fail (os_failure 0 (to_text path))
        else pure tt

  pub open_ : ℕ → Text → ℕ → Step F (Unit {0})
  unfolding check_exclusive
  open_ request_id path_text flags = do
    path ← normalize path_text
    s ← get_state
    let mode = open_mode flags (os.path_exists path s.world)
    check_exclusive flags path
    f ← act (os.os_open path mode)
    handle ← new_handle os (file f)
    reply os Codes.ssh_fxp_handle request_id (Writer.string handle)

  pub read_ : ℕ → Bytes → ℕ → ℕ → Step F (Unit {0})
  unfolding as_file
  read_ request_id handle offset size = do
    h ← find_handle os handle
    f ← as_file (codes "seek") h
    act (os.file_seek f offset)
    b ← act (os.file_read f size)
    if length b == 0
        then status os request_id Codes.ssh_fx_eof (codes "end of file")
        else reply os Codes.ssh_fxp_data request_id (Writer.string b)

  pub write_ : ℕ → Bytes → ℕ → Bytes → Step F (Unit {0})
  unfolding as_file
  write_ request_id handle offset b = do
    h ← find_handle os handle
    f ← as_file (codes "seek") h
    act (os.file_seek f offset)
    act (os.file_write f b)
    act (os.file_flush f)
    status os request_id Codes.ssh_fx_ok (codes "ok")

  pub close_ : ℕ → Bytes → Step F (Unit {0})
  close_ request_id handle = do
    close_handle os handle
    status os request_id Codes.ssh_fx_ok (codes "ok")

  -- A request that calls the system for one path and answers "ok".
  pub on_path : ℕ → Text → (FilePath → F → Outcome (Unit {0}) × F) → Step F (Unit {0})
  on_path request_id path_text call = do
    path ← normalize path_text
    act (call path)
    status os request_id Codes.ssh_fx_ok (codes "ok")

  pub stat_path : ℕ → Text → (FilePath → F → Outcome Stat) → Step F (Unit {0})
  stat_path request_id path_text call = do
    path ← normalize path_text
    st ← ask (call path)
    reply os Codes.ssh_fxp_attrs request_id (attrs_from_stat st)

  pub fstat : ℕ → Bytes → Step F (Unit {0})
  unfolding as_file
  fstat request_id handle = do
    h ← find_handle os handle
    f ← as_file (codes "fileno") h
    st ← ask (os.os_fstat f)
    reply os Codes.ssh_fxp_attrs request_id (attrs_from_stat st)

  -- The reader raises for the second path only after the first is normalised.
  pub rename : ℕ → Bytes → Step F (Unit {0})
  rename request_id body = do
    old_text ← lift os (run Reader.text body)
    old ← normalize old_text
    (again, new_text) ← lift os (run two_texts body)
    new ← normalize new_text
    act (os.os_rename old new)
    status os request_id Codes.ssh_fx_ok (codes "ok")
