-- ===== src/Relay/Messages.antt =====
-- The numbers of reverssh/ssh_messages.py.
use rever_ssh.Prelude.{ℕ}

abbrev pub ssh_msg_ignore : ℕ
ssh_msg_ignore = 2

abbrev pub ssh_msg_debug : ℕ
ssh_msg_debug = 4

abbrev pub ssh_msg_service_request : ℕ
ssh_msg_service_request = 5

abbrev pub ssh_msg_service_accept : ℕ
ssh_msg_service_accept = 6

abbrev pub ssh_msg_kexinit : ℕ
ssh_msg_kexinit = 20

abbrev pub ssh_msg_userauth_request : ℕ
ssh_msg_userauth_request = 50

abbrev pub ssh_msg_userauth_failure : ℕ
ssh_msg_userauth_failure = 51

abbrev pub ssh_msg_userauth_success : ℕ
ssh_msg_userauth_success = 52

abbrev pub ssh_msg_userauth_pk_ok : ℕ
ssh_msg_userauth_pk_ok = 60

abbrev pub ssh_msg_disconnect : ℕ
ssh_msg_disconnect = 1

abbrev pub ssh_msg_unimplemented : ℕ
ssh_msg_unimplemented = 3

abbrev pub ssh_msg_ext_info : ℕ
ssh_msg_ext_info = 7

abbrev pub ssh_msg_newkeys : ℕ
ssh_msg_newkeys = 21

abbrev pub ssh_msg_kex_ecdh_init : ℕ
ssh_msg_kex_ecdh_init = 30

abbrev pub ssh_msg_kex_ecdh_reply : ℕ
ssh_msg_kex_ecdh_reply = 31

abbrev pub ssh_msg_userauth_banner : ℕ
ssh_msg_userauth_banner = 53

abbrev pub ssh_msg_global_request : ℕ
ssh_msg_global_request = 80

abbrev pub ssh_msg_request_success : ℕ
ssh_msg_request_success = 81

abbrev pub ssh_msg_request_failure : ℕ
ssh_msg_request_failure = 82

abbrev pub ssh_msg_channel_open : ℕ
ssh_msg_channel_open = 90

abbrev pub ssh_msg_channel_open_confirmation : ℕ
ssh_msg_channel_open_confirmation = 91

abbrev pub ssh_msg_channel_open_failure : ℕ
ssh_msg_channel_open_failure = 92

abbrev pub ssh_msg_channel_window_adjust : ℕ
ssh_msg_channel_window_adjust = 93

abbrev pub ssh_msg_channel_data : ℕ
ssh_msg_channel_data = 94

abbrev pub ssh_msg_channel_extended_data : ℕ
ssh_msg_channel_extended_data = 95

abbrev pub ssh_msg_channel_eof : ℕ
ssh_msg_channel_eof = 96

abbrev pub ssh_msg_channel_close : ℕ
ssh_msg_channel_close = 97

abbrev pub ssh_msg_channel_request : ℕ
ssh_msg_channel_request = 98

abbrev pub ssh_msg_channel_success : ℕ
ssh_msg_channel_success = 99

abbrev pub ssh_msg_channel_failure : ℕ
ssh_msg_channel_failure = 100

abbrev pub ssh_open_administratively_prohibited : ℕ
ssh_open_administratively_prohibited = 1

abbrev pub ssh_open_connect_failed : ℕ
ssh_open_connect_failed = 2

abbrev pub ssh_open_unknown_channel_type : ℕ
ssh_open_unknown_channel_type = 3

abbrev pub ssh_open_resource_shortage : ℕ
ssh_open_resource_shortage = 4

abbrev pub extended_data_stderr : ℕ
extended_data_stderr = 1
