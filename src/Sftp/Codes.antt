-- ===== src/Sftp/Codes.antt =====
-- The numbers at the head of reverssh/sftp.py.
use rever_ssh.Prelude.{ℕ}

abbrev pub ssh_fxp_init : ℕ
ssh_fxp_init = 1

abbrev pub ssh_fxp_version : ℕ
ssh_fxp_version = 2

abbrev pub ssh_fxp_open : ℕ
ssh_fxp_open = 3

abbrev pub ssh_fxp_close : ℕ
ssh_fxp_close = 4

abbrev pub ssh_fxp_read : ℕ
ssh_fxp_read = 5

abbrev pub ssh_fxp_write : ℕ
ssh_fxp_write = 6

abbrev pub ssh_fxp_lstat : ℕ
ssh_fxp_lstat = 7

abbrev pub ssh_fxp_fstat : ℕ
ssh_fxp_fstat = 8

abbrev pub ssh_fxp_setstat : ℕ
ssh_fxp_setstat = 9

abbrev pub ssh_fxp_fsetstat : ℕ
ssh_fxp_fsetstat = 10

abbrev pub ssh_fxp_opendir : ℕ
ssh_fxp_opendir = 11

abbrev pub ssh_fxp_readdir : ℕ
ssh_fxp_readdir = 12

abbrev pub ssh_fxp_remove : ℕ
ssh_fxp_remove = 13

abbrev pub ssh_fxp_mkdir : ℕ
ssh_fxp_mkdir = 14

abbrev pub ssh_fxp_rmdir : ℕ
ssh_fxp_rmdir = 15

abbrev pub ssh_fxp_realpath : ℕ
ssh_fxp_realpath = 16

abbrev pub ssh_fxp_stat : ℕ
ssh_fxp_stat = 17

abbrev pub ssh_fxp_rename : ℕ
ssh_fxp_rename = 18

abbrev pub ssh_fxp_status : ℕ
ssh_fxp_status = 101

abbrev pub ssh_fxp_handle : ℕ
ssh_fxp_handle = 102

abbrev pub ssh_fxp_data : ℕ
ssh_fxp_data = 103

abbrev pub ssh_fxp_name : ℕ
ssh_fxp_name = 104

abbrev pub ssh_fxp_attrs : ℕ
ssh_fxp_attrs = 105

abbrev pub ssh_fx_ok : ℕ
ssh_fx_ok = 0

abbrev pub ssh_fx_eof : ℕ
ssh_fx_eof = 1

abbrev pub ssh_fx_no_such_file : ℕ
ssh_fx_no_such_file = 2

abbrev pub ssh_fx_permission_denied : ℕ
ssh_fx_permission_denied = 3

abbrev pub ssh_fx_failure : ℕ
ssh_fx_failure = 4

abbrev pub ssh_fx_op_unsupported : ℕ
ssh_fx_op_unsupported = 8

abbrev pub ssh_filexfer_attr_size : ℕ
ssh_filexfer_attr_size = 1

abbrev pub ssh_filexfer_attr_uidgid : ℕ
ssh_filexfer_attr_uidgid = 2

abbrev pub ssh_filexfer_attr_permissions : ℕ
ssh_filexfer_attr_permissions = 4

abbrev pub ssh_filexfer_attr_acmodtime : ℕ
ssh_filexfer_attr_acmodtime = 8

abbrev pub ssh_fxf_read : ℕ
ssh_fxf_read = 1

abbrev pub ssh_fxf_write : ℕ
ssh_fxf_write = 2

abbrev pub ssh_fxf_append : ℕ
ssh_fxf_append = 4

abbrev pub ssh_fxf_creat : ℕ
ssh_fxf_creat = 8

abbrev pub ssh_fxf_trunc : ℕ
ssh_fxf_trunc = 16

abbrev pub ssh_fxf_excl : ℕ
ssh_fxf_excl = 32
