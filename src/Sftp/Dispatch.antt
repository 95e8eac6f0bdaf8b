-- ===== src/Sftp/Dispatch.antt =====
-- `_handle_packet` and `feed` of reverssh/sftp.py.
pub mod Chunks
mod Tests
use rever_ssh.Prelude.{
  ℕ, zero, suc, ◌+◌, ◌-◌, min, Bool, true, false, ◌||◌, List, [], ◌∷◌, ◌++◌, codes, length, take,
  drop, ltb, ◌==◌, if◌then◌else◌,
}
use rever_ssh.Exn.{Exn, Result, ok, err, index_error}
use rever_ssh.Bytes.{Bytes, Text}
use rever_ssh.Bytes.Endian.{from_be}
use rever_ssh.SshEncoding.Writer
use rever_ssh.SshEncoding.Reader
use rever_ssh.SshEncoding.Reader.{Read, run}
use rever_ssh.Sftp.Codes
use rever_ssh.Sftp.Os.{Failure, exn, Outcome, done, raised, Os}
use rever_ssh.Sftp.Server.{Server, Step, ◌>>=◌, ◌>>◌, fail, lift, send_packet, status}
use rever_ssh.Sftp.Requests.{
  failure_status, realpath, opendir, readdir, open_, read_, write_, close_, on_path, stat_path,
  fstat, rename,
}

-- The fields of the requests that have more than one.
text_uint32 : Read (Text × ℕ)
text_uint32 = Reader.◌>>=◌ Reader.text (λ a. Reader.◌>>=◌ Reader.uint32 (λ b. Reader.pure (a, b)))

string_uint64_uint32 : Read (Bytes × ℕ × ℕ)
string_uint64_uint32 =
    Reader.◌>>=◌ Reader.string (λ a.
      Reader.◌>>=◌ Reader.uint64 (λ b. Reader.◌>>=◌ Reader.uint32 (λ c. Reader.pure (a, b, c))))

string_uint64_string : Read (Bytes × ℕ × Bytes)
string_uint64_string =
    Reader.◌>>=◌ Reader.string (λ a.
      Reader.◌>>=◌ Reader.uint64 (λ b. Reader.◌>>=◌ Reader.string (λ c. Reader.pure (a, b, c))))

module _ {F : Type 0} (os : Os F) where
  -- The `try` block, for a packet type and what stands behind the id.
  request : ℕ → ℕ → Bytes → Step F (Unit {0})
  request packet_type id body =
      if packet_type == Codes.ssh_fxp_realpath
      then lift os (run Reader.text body) >>= realpath os id
      else if packet_type == Codes.ssh_fxp_stat
      then lift os (run Reader.text body) >>= (λ path. stat_path os id path os.os_stat)
      else if packet_type == Codes.ssh_fxp_lstat
      then lift os (run Reader.text body) >>= (λ path. stat_path os id path os.os_lstat)
      else if packet_type == Codes.ssh_fxp_fstat
      then lift os (run Reader.string body) >>= fstat os id
      else if packet_type == Codes.ssh_fxp_opendir
      then lift os (run Reader.text body) >>= opendir os id
      else if packet_type == Codes.ssh_fxp_readdir
      then lift os (run Reader.string body) >>= readdir os id
      else if packet_type == Codes.ssh_fxp_open
      then lift os (run text_uint32 body) >>= (λ (path, flags). open_ os id path flags)
      else if packet_type == Codes.ssh_fxp_read
      then lift os (run string_uint64_uint32 body)
        >>= (λ (handle, offset, size). read_ os id handle offset size)
      else if packet_type == Codes.ssh_fxp_write
      then lift os (run string_uint64_string body)
        >>= (λ (handle, offset, b). write_ os id handle offset b)
      else if packet_type == Codes.ssh_fxp_close
      then lift os (run Reader.string body) >>= close_ os id
      else if packet_type == Codes.ssh_fxp_remove
      then lift os (run Reader.text body) >>= (λ path. on_path os id path os.os_remove)
      else if packet_type == Codes.ssh_fxp_mkdir
      then lift os (run Reader.text body) >>= (λ path. on_path os id path os.os_mkdir)
      else if packet_type == Codes.ssh_fxp_rmdir
      then lift os (run Reader.text body) >>= (λ path. on_path os id path os.os_rmdir)
      else if packet_type == Codes.ssh_fxp_rename
      then rename os id body
      else status os id Codes.ssh_fx_op_unsupported (codes "unsupported")

  -- The `except` clauses.
  recover : ℕ → Outcome (Unit {0}) × Server F → Outcome (Unit {0}) × Server F
  recover id (done _, s) = (done tt, s)
  recover id (raised e, s) = let (code, message) = failure_status e in status os id code message s

  answer : ℕ → ℕ → Bytes → Step F (Unit {0})
  unfolding request recover
  answer packet_type id body s = recover id (request packet_type id body s)

  init : Bytes → Step F (Unit {0})
  init body = do
    version ← lift os (run Reader.uint32 body)
    payload ← lift os (Writer.uint32 (min version 3))
    send_packet os Codes.ssh_fxp_version payload

  -- `packet[0]` of an empty packet raises, and so does an id that is cut short.
  pub handle_packet : Bytes → Step F (Unit {0})
  unfolding answer init
  handle_packet [] = fail (exn index_error (os.message index_error))
  handle_packet (packet_type ∷ rest) =
      if packet_type == Codes.ssh_fxp_init
      then init rest
      else lift os (run Reader.uint32 rest) >>= λ id. answer packet_type id (drop 4 rest)

  after_packet :
      Outcome (Unit {0}) × Server F
      → Bytes
      → (Server F → Outcome (Unit {0}) × Bytes × Server F)
      → Outcome (Unit {0}) × Bytes × Server F
  after_packet (done _, s) rest next = next s
  after_packet (raised e, s) rest next = (raised e, rest, s)

  -- The `while` loop of `feed`, on the buffer; each round takes four bytes at least.
  drain : ℕ → Bytes → Server F → Outcome (Unit {0}) × Bytes × Server F
  unfolding after_packet
  drain zero buffer s = (done tt, buffer, s)
  drain (suc fuel) buffer s =
      let size : ℕ = 4 + from_be (take 4 buffer) in
      if ltb (length buffer) 4 || ltb (length buffer) size
      then (done tt, buffer, s)
      else after_packet (handle_packet (drop 4 (take size buffer)) s) (drop size buffer)
          (drain fuel (drop size buffer))

  -- The outcome, what stays in the buffer, and the server.
  pub feed : Bytes → Bytes → Server F → Outcome (Unit {0}) × Bytes × Server F
  unfolding drain
  feed b buffer s = drain (length (buffer ++ b)) (buffer ++ b) s
