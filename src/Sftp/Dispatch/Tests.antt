-- ===== src/Sftp/Dispatch/Tests.antt =====
-- Runs of the SFTP server on an operating system with one file.
use rever_ssh.Prelude.{
  ℕ, ◌+◌, ◌≡◌, ◌⊎◌, refl, true, false, [], ◌∷◌, ◌++◌, codes, take, drop, arith, seq_eq,
}
use rever_ssh.Exn.{ok, err, value_error}
use rever_ssh.Bytes.{Bytes}
use rever_ssh.Bytes.Endian.{from_be}
use rever_ssh.Sftp.Path.{FilePath, has_nul, normalize_sftp_path}
use rever_ssh.Sftp.Path.Normal.{IsNormal, part_lem, normalize_sftp_path-IsNormal}
use rever_ssh.Sftp.Os.{done, raised, os_failure, permission_error, Stat, Os}
use rever_ssh.Sftp.Server.{Server}
use rever_ssh.Sftp.Dispatch.{drain, feed}
use rever_ssh.Sftp.Dispatch.Chunks.{feed-append}

abbrev stat : Stat
stat = record {
  st_size = 5;
  st_uid = 1000;
  st_gid = 1000;
  st_mode = 33188;
  st_atime = 7;
  st_mtime = 9;
}

-- The world is the position in the one file, which can be read and not be written.
abbrev os : Os ℕ
os = record {
  expanduser = λ path. path;
  message = λ e. codes "error";
  path_resolve = λ path world. done path;
  path_exists = λ path world. true;
  os_stat = λ path world. done stat;
  os_lstat = λ path world. done stat;
  os_fstat = λ f world. done stat;
  os_scandir = λ path world. done (codes "a" ∷ []);
  longname = λ name st. name;
  send_data = λ b world. (done tt, world);
  os_open = λ path mode world. (done 3, 0);
  file_seek = λ f offset world. (done tt, offset);
  file_read = λ f size world. (done (take size (drop world (codes "hello"))), world + size);
  file_write = λ f b world. (raised (permission_error (codes "denied")), world);
  file_flush = λ f world. (done tt, world);
  file_close = λ f world. (done tt, world);
  os_remove = λ path world. (raised (os_failure 2 (codes "missing")), world);
  os_mkdir = λ path world. (done tt, world);
  os_rmdir = λ path world. (done tt, world);
  os_rename = λ old new world. (done tt, world);
}

abbrev home : FilePath
home = record { root = codes "/"; parts = codes "home" ∷ [] }

abbrev server : Server ℕ
server = record { cwd = home; next_handle = 1; handles = []; world = 0; sent = [] }

-- SSH_FXP_INIT for version 3, cut in two.
abbrev before : Bytes
before = 0 ∷ 0 ∷ 0 ∷ []

abbrev behind : Bytes
behind = 5 ∷ 1 ∷ 0 ∷ 0 ∷ 0 ∷ 3 ∷ []

feed-before : feed os before [] server ≡ (done tt, before, server)
unfolding feed drain from_be
feed-before = refl

feed-append_example : feed os (before ++ behind) [] server ≡ feed os behind before server
feed-append_example = feed-append os before behind [] server before server feed-before

home-IsNormal : IsNormal home
unfolding seq_eq
home-IsNormal = (
  part_lem (codes "home") refl refl (omega arith, (omega arith, (omega arith, (omega arith, tt)))),
  tt,
)

normalize_sftp_path-IsNormal_example :
    ((has_nul (codes "../x") ≡ true)
      × (normalize_sftp_path (λ path. path) home (codes "../x") ≡ err value_error))
    ⊎ ((p : FilePath) × (has_nul (codes "../x") ≡ false)
        × (normalize_sftp_path (λ path. path) home (codes "../x") ≡ ok p)
        × IsNormal p)
normalize_sftp_path-IsNormal_example =
    normalize_sftp_path-IsNormal (λ path. path) home (codes "../x") home-IsNormal
