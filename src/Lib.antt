-- ===== src/Lib.antt =====
-- reverSSH (reverssh/): a relay to which reverse clients connect out, and through which operators reach
-- them over SSH. The relay (reverssh/relay.py) speaks the SSH transport to operators
-- (reverssh/ssh_packet.py over reverssh/crypto), authenticates them with a signature and the approval of
-- the reverse client (reverssh/client.py), and forwards channels to that client in frames of the private
-- protocol (reverssh/private_protocol.py), over TCP or a WebSocket (reverssh/websocket.py).
--
-- The model is executable. A function that raises returns a `Result` (Exn.antt); bytes and texts are lists
-- of numbers (Bytes.antt); a socket is the list of pieces in which the network delivers what the peer sent,
-- and what was written (Sock.antt). A method takes its object as a record and returns it. Code outside the
-- repository is an argument: `os.urandom`, `hashlib`, `json`, the terminal, and for the
-- authentication `ed25519.verify` and `public_key_fingerprint`; for SFTP the operating system, a record of
-- calls on the state of the outside world; `int` on a text.
--
-- Files, and the code that they model:
--   Prelude, Exn, Bytes, Dict   shared notation, errors, byte strings with UTF-8 and endianness, `dict`
--   Sock                        `recv_exact` of reverssh/ssh_packet.py
--   SshEncoding                 reverssh/ssh_encoding.py: Writer has the functions, Reader the class,
--                               PublicKey the fingerprint
--   Crypto                      reverssh/crypto: Chacha, Poly1305, Curve25519, Ed25519
--   SshPacket                   reverssh/ssh_packet.py: Cipher, Padding, Stream
--   PrivateProtocol             reverssh/private_protocol.py: Pack, Unpack, Frame; Message joins them
--   Keys                        reverssh/keys.py: the key blobs
--   Relay.Messages              reverssh/ssh_messages.py
--   Relay.Registry              `ClientRegistry` of reverssh/relay.py; threads are sequences of steps
--   Relay.Channel               `SSHChannelBase` and the send loops; what other threads do to a channel
--                               between the turns of its sender is a list of wakes
--   Relay.Negotiation           `_first_common`, `_derive_key`, `_parse_kexinit`
--   Relay.Payloads              the payloads that open and close channels, and the KEXINIT
--   Relay.BindAddress           `_map_bind_address`
--   Relay.Auth                  `_authenticate` and what it calls, over the list of packets to come
--   Relay.Connection            `SSHConnection` after authentication with its `RegisteredClient`: State has
--                               the channel objects and the two tables that share them; Objects, Fields,
--                               Global, Open and Loop the packets of the SSH client; Frames the frames of
--                               the reverse client; Forwarded the connections to forwarded ports; Events
--                               a list of events, each what one thread does between two waits: the wait of
--                               `_handle_channel_open` is a state of its thread, and a send loop that
--                               waits for its window a state of the thread that is in it
--   Relay.Handshake             `_handle_reverse_client`
--   Sftp                        reverssh/sftp.py: Path, Codes, Os (its parameters), Server (handles and
--                               answers), Requests, Dispatch (`_handle_packet` and `feed`)
--   Client.Sender               the sending methods of `ReverseClientConnection`
--   NetUtil                     `parse_host_port` of reverssh/netutil.py
--   WebSocket                   the frames of reverssh/websocket.py, the stream over them, and Url
--   Client.Approval             `KnownOperators` and `OperatorApproval` of reverssh/client.py
--
-- Fuel: `drain`, the loop of `feed`, has one round per byte of the buffer, since each round takes four
-- bytes at least; `send_chunks` one per byte of the data; `recv_loop` has one round more than bytes
-- wanted, since each round reads a byte at least; the stream cipher's loop one more than bytes, the
-- send loops likewise; `extend_key` one more than the key's bytes; `pad_loop` eight rounds, since
-- padding is found within eight; `mod_pow` 255 digits, since the exponent is below 2 ^ 255;
-- `mult_loop` 256, since every scalar is below 2 ^ 256. `read_message` and `ws_recv` take their fuel
-- as an argument.
--
-- Each event runs as a whole, so what threads do within one is not interleaved; in particular
-- `_next_channel_id`, which takes no lock, is one step. A send to the SSH client does not raise in
-- Relay.Connection for its socket; a send to the reverse client raises once its socket is gone.
--
-- Not modelled: the relay's key exchange, its listening sockets, the message that `run` sends when it ends
-- by an exception, several connections that share one reverse client; the client's loop and sessions, the
-- WebSocket upgrade, key and state files, threads' start-up and the command line.
pub mod Prelude
pub mod Exn
pub mod Bytes
pub mod SshEncoding
pub mod Crypto
pub mod Dict
pub mod Sock
pub mod PrivateProtocol
pub mod Keys
pub mod SshPacket
pub mod Relay
pub mod WebSocket
pub mod Client
pub mod Sftp
pub mod NetUtil
