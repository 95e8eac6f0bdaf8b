-- ===== src/Sftp/Server.antt =====
-- `SFTPServer` of reverssh/sftp.py without its input buffer: the state that the requests change, and
-- the steps that they are made of. A step keeps the state that it reached where it raises.
use rever_ssh.Prelude.{ℕ, ◌+◌, List, [], ◌∷◌, ◌++◌, Option, none, some, length, bit_or}
use rever_ssh.Exn.{Result, ok, err, key_error}
use rever_ssh.Exn.{◌>>=◌ as bind}
use rever_ssh.Bytes.{Bytes, Text}
use rever_ssh.Bytes.Strings.{decimal}
use rever_ssh.Dict
use rever_ssh.Dict.{Dict, seq_key}
use rever_ssh.SshEncoding.Writer.{uint32, uint64, text}
use rever_ssh.Sftp.Codes.{
  ssh_fxp_status, ssh_filexfer_attr_size, ssh_filexfer_attr_uidgid, ssh_filexfer_attr_permissions,
  ssh_filexfer_attr_acmodtime,
}
use rever_ssh.Sftp.Path.{FilePath}
use rever_ssh.Sftp.Os.{Failure, exn, Outcome, done, raised, Stat, Os}

-- What a handle stands for: a directory's path, entries and offset, or a file object.
pub data Handle : Type 0 where
  directory : FilePath → List Text → ℕ → Handle
  file : ℕ → Handle

pub record Server (F : Type 0) : Type 0 where
  pub cwd : FilePath
  pub next_handle : ℕ
  pub handles : Dict Bytes Handle
  pub world : F
  -- what the calls of `send_data` that returned were given
  pub sent : List Bytes

abbrev pub Step : Type 0 → Type 0 → Type 0
Step F A = Server F → Outcome A × Server F

and_then : {F A B : Type 0} → Outcome A × Server F → (A → Step F B) → Outcome B × Server F
and_then (done a, s) k = k a s
and_then (raised e, s) k = (raised e, s)

infixl 5 ◌>>=◌ ◌>>◌
unfoldable pub ◌>>=◌ : {F A B : Type 0} → Step F A → (A → Step F B) → Step F B
unfolding and_then
◌>>=◌ m k s = and_then (m s) k

abbrev pub ◌>>◌ : {F B : Type 0} → Step F (Unit {0}) → Step F B → Step F B
m >> k = m >>= λ _. k

unfoldable pub pure : {F A : Type 0} → A → Step F A
pure a s = (done a, s)

unfoldable pub fail : {F A : Type 0} → Failure → Step F A
fail e s = (raised e, s)

-- What the readers and writers of this model return.
lift_result : {F A : Type 0} → Os F → Result A → Step F A
lift_result os (ok a) s = (done a, s)
lift_result os (err e) s = (raised (exn e (os.message e)), s)

unfoldable pub lift : {F A : Type 0} → Os F → Result A → Step F A
unfolding lift_result
lift os r = lift_result os r

-- A call that only looks at the world, and one that changes it.
unfoldable pub ask : {F A : Type 0} → (F → Outcome A) → Step F A
ask call s = (call s.world, s)

unfoldable pub act : {F A : Type 0} → (F → Outcome A × F) → Step F A
act call s = let (r, world) = call s.world in (r, record s { world = world })

unfoldable pub get_state : {F : Type 0} → Step F (Server F)
get_state s = (done s, s)

unfoldable pub put_handles : {F : Type 0} → Dict Bytes Handle → Step F (Unit {0})
put_handles handles s = (done tt, record s { handles = handles })

unfoldable pub frame : ℕ → Bytes → Result Bytes
frame packet_type payload =
    bind (uint32 (length payload + 1)) (λ size. ok (size ++ packet_type ∷ payload))

module _ {F : Type 0} (os : Os F) where
  pushed : Bytes → Server F → Outcome (Unit {0}) × F → Outcome (Unit {0}) × Server F
  pushed b s (done _, world) = (done tt, record s { world = world; sent = s.sent ++ b ∷ [] })
  pushed b s (raised e, world) = (raised e, record s { world = world })

  -- self.send_data
  unfoldable pub push_sent : Bytes → Step F (Unit {0})
  unfolding pushed
  push_sent b s = pushed b s (os.send_data b s.world)

  unfoldable pub send_packet : ℕ → Bytes → Step F (Unit {0})
  send_packet packet_type payload = do b ← lift os (frame packet_type payload); push_sent b

  -- A payload that begins with the request's id.
  unfoldable pub reply : ℕ → ℕ → Result Bytes → Step F (Unit {0})
  reply packet_type request_id rest = do
    payload ← lift os (bind (uint32 request_id) (λ id. bind rest (λ b. ok (id ++ b))))
    send_packet packet_type payload

  unfoldable pub status : ℕ → ℕ → Text → Step F (Unit {0})
  status request_id code message = reply ssh_fxp_status request_id (
      bind (uint32 code) (λ c. bind (text message) (λ m. bind (text []) (λ l. ok (c ++ (m ++ l))))))

  found_handle : Option Handle → Step F Handle
  found_handle none = lift os (err key_error)
  found_handle (some h) = pure h

  -- self.handles[handle]
  pub find_handle : Bytes → Step F Handle
  unfolding found_handle
  find_handle handle s = found_handle (Dict.get handle s.handles) s

  unfoldable pub new_handle : Handle → Step F Bytes
  new_handle h s =
      let handle : Bytes = b'h' ∷ decimal s.next_handle in
      (
        done handle,
        record s { next_handle = s.next_handle + 1; handles = Dict.put handle h s.handles },
      )

  close_object : Option Handle → Step F (Unit {0})
  close_object (some (file f)) = act (os.file_close f)
  close_object (some (directory path entries offset)) = pure tt
  close_object none = pure tt

  unfoldable pub close_handle : Bytes → Step F (Unit {0})
  unfolding close_object
  close_handle handle = do
    s ← get_state
    put_handles (Dict.remove handle s.handles)
    close_object (Dict.get handle s.handles)

  close_handles : List (Bytes × Handle) → Step F (Unit {0})
  close_handles [] = pure tt
  close_handles ((handle, h) ∷ rest) = close_handle handle >> close_handles rest

  pub close : Step F (Unit {0})
  unfolding close_handles
  close = do s ← get_state; close_handles s.handles

-- _attrs_from_stat
unfoldable pub attrs_from_stat : Stat → Result Bytes
attrs_from_stat st =
    bind
      (uint32 (
        bit_or
          (bit_or (bit_or ssh_filexfer_attr_size ssh_filexfer_attr_uidgid)
            ssh_filexfer_attr_permissions)
          ssh_filexfer_attr_acmodtime))
      (λ a. bind (uint64 st.st_size) (λ b. bind (uint32 st.st_uid) (λ c.
        bind (uint32 st.st_gid) (λ d. bind (uint32 st.st_mode) (λ e. bind (uint32 st.st_atime) (λ f.
          bind (uint32 st.st_mtime) (λ g. ok (a ++ (b ++ (c ++ (d ++ (e ++ (f ++ g)))))))))))))
