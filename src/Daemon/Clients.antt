-- ===== src/Daemon/Clients.antt =====
-- The clients of the daemon: the list client_base of fuse/commands.c, and the reading of their commands.
use time_capsule_mount.Prelude.{
  ℕ, ◌+◌, Bool, true, false, Option, none, some, List, [], ◌∷◌, ◌++◌, ℤ, pos, neg, ◌==◌,
  if◌then◌else◌,
}

-- struct fuse_client, with its address. What is written to the client is left out.
pub record Client : Type 0 where
  pub address : ℕ
  pub incoming : List ℕ
  pub fd : ℕ

-- The effects outside of the list.
pub data Deed : Type 0 where
  -- pthread_create(&thread, NULL, process_command_thread, c)
  thread : (address : ℕ) → Deed
  closed rm_fd_and_signal : (fd : ℕ) → Deed
  -- the response to the client
  response : (fd result : ℕ) → Deed

-- client_base, the address of the next client, and the effects, newest first
pub record Clients : Type 0 where
  pub base : List Client
  pub next_address : ℕ
  pub deeds : List Deed

-- The loop of remove_client behind the first client: `none` where it is not found.
unfoldable pub unlink_client : (address : ℕ) → List Client → Option (List Client)
unlink_client address [] = none
unlink_client address (c ∷ cs) =
    let rest = unlink_client address cs in
    if c.address == address then some cs else elim rest [ none ↦ none | some cs' ↦ some (c ∷ cs') ]

-- The return value, and client_base: where the first client is removed it is set to null.
unfoldable pub remove_client : (address : ℕ) → List Client → ℤ × List Client
unfolding unlink_client
remove_client address [] = (neg 1, [])
remove_client address (c ∷ cs) =
    if c.address == address
    then (pos 0, [])
    else elim (unlink_client address cs) [ none ↦ (neg 1, c ∷ cs) | some cs' ↦ (pos 0, c ∷ cs') ]

unfoldable pub fuse_add_client : (fd : ℕ) → Clients → Clients
fuse_add_client fd d = record d {
  base = d.base ++ (record { address = d.next_address; incoming = []; fd = fd } ∷ []);
  next_address = d.next_address + 1;
}

unfoldable pub set_incoming : (address : ℕ) → List ℕ → List Client → List Client
set_incoming address bytes [] = []
set_incoming address bytes (c ∷ cs) =
    let rest = set_incoming address bytes cs in
    if c.address == address then record c { incoming = bytes } ∷ cs else c ∷ rest

-- `bytes` is what read gave, `none` where it gave nothing. It always returns 0.
unfoldable pub process_command : (bytes : Option (List ℕ)) → Client → Clients → Clients
unfolding remove_client set_incoming
process_command none c d = record d {
  base = (remove_client c.address d.base).1;
  deeds = Deed.rm_fd_and_signal c.fd ∷ Deed.closed c.fd ∷ d.deeds;
}
process_command (some bytes) c d = record d {
  base = set_incoming c.address bytes d.base;
  deeds = Deed.thread c.address ∷ d.deeds;
}

-- FD_ISSET on the descriptors, and what read gives for one.
abbrev pub Ready : Type 0
Ready = ℕ → Bool

abbrev pub Input : Type 0
Input = ℕ → Option (List ℕ)

-- The first client with input is served: the return value 1 is true.
unfoldable pub serve_first : Ready → Input → List Client → Clients → Bool × Clients
unfolding process_command
serve_first ready input [] d = (false, d)
serve_first ready input (c ∷ cs) d =
    let rest = serve_first ready input cs d in
    if ready c.fd then (true, process_command (input c.fd) c d) else rest

unfoldable pub fuse_process_client_fds : Ready → Input → Clients → Bool × Clients
unfolding serve_first
fuse_process_client_fds ready input d = serve_first ready input d.base d

-- FD_SET
abbrev pub set_ready : ℕ → Ready → Ready
set_ready fd ready i = if i == fd then true else ready i

-- `new` is the connection that accept gives, where command_fd is ready and there is one. The case -1 of
-- the switch cannot be; where no client has input it sleeps and returns 0. `*max_fd` is left out.
unfoldable pub fuse_scan_extra_fds : (new : Option ℕ) → Ready → Input → Clients → Bool × Clients
unfolding fuse_process_client_fds fuse_add_client
fuse_scan_extra_fds none ready input d = fuse_process_client_fds ready input d
fuse_scan_extra_fds (some fd) ready input d =
    fuse_process_client_fds (set_ready fd ready) input (fuse_add_client fd d)
