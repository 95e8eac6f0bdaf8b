-- ===== src/Sftp/Os.antt =====
-- What `SFTPServer` calls of the operating system, as operations on the state of the outside world,
-- and the exceptions that they raise.
use rever_ssh.Prelude.{ℕ, Bool, List}
use rever_ssh.Exn.{Exn}
use rever_ssh.Bytes.{Bytes, Text}
use rever_ssh.Sftp.Path.{FilePath}

-- The exceptions by the handlers of `_handle_packet`: KeyError and the rest are an `Exn` with
-- str(exc); an OSError carries its errno, 0 where it has none.
pub data Failure : Type 0 where
  exn : Exn → Text → Failure
  permission_error : Text → Failure
  os_failure : ℕ → Text → Failure

pub data Outcome {ℓ} (A : Type ℓ) : Type ℓ where
  done : A → Outcome A
  raised : Failure → Outcome A

-- os.stat_result; the two times after `int`
pub record Stat : Type 0 where
  pub st_size : ℕ
  pub st_uid : ℕ
  pub st_gid : ℕ
  pub st_mode : ℕ
  pub st_atime : ℕ
  pub st_mtime : ℕ

-- `F` is the state of the outside world, a number is an open file object.
pub record Os (F : Type 0) : Type 0 where
  pub expanduser : Text → Text
  -- str(exc) of what the readers and writers raise
  pub message : Exn → Text
  pub path_resolve : FilePath → F → Outcome FilePath
  pub path_exists : FilePath → F → Bool
  pub os_stat : FilePath → F → Outcome Stat
  pub os_lstat : FilePath → F → Outcome Stat
  pub os_fstat : ℕ → F → Outcome Stat
  pub os_scandir : FilePath → F → Outcome (List Text)
  -- stat.filemode and the formatted time in `_longname`
  pub longname : Text → Stat → Text
  -- the callable that the server sends with
  pub send_data : Bytes → F → Outcome (Unit {0}) × F
  pub os_open : FilePath → Text → F → Outcome ℕ × F
  pub file_seek : ℕ → ℕ → F → Outcome (Unit {0}) × F
  pub file_read : ℕ → ℕ → F → Outcome Bytes × F
  pub file_write : ℕ → Bytes → F → Outcome (Unit {0}) × F
  pub file_flush : ℕ → F → Outcome (Unit {0}) × F
  pub file_close : ℕ → F → Outcome (Unit {0}) × F
  pub os_remove : FilePath → F → Outcome (Unit {0}) × F
  pub os_mkdir : FilePath → F → Outcome (Unit {0}) × F
  pub os_rmdir : FilePath → F → Outcome (Unit {0}) × F
  pub os_rename : FilePath → FilePath → F → Outcome (Unit {0}) × F
