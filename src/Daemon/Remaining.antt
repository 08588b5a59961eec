-- ===== src/Daemon/Remaining.antt =====
-- The clients that are left behind one that was served: remove_client, process_command_thread and
-- fuse_scan_extra_fds of fuse/commands.c.
use time_capsule_mount.Prelude.{ℕ, ◌≡◌, refl, ap, ◌∙◌, false, none, List, [], ◌∷◌, ◌==◌, ==_refl}
use time_capsule_mount.Daemon.Clients.{
  Client, Clients, Ready, Input, remove_client, serve_first, fuse_process_client_fds,
  fuse_scan_extra_fds,
}
use time_capsule_mount.Daemon.Commands.{Command, process_command_thread}

remove_client-first : (c : Client) (cs : List Client) → (remove_client c.address (c ∷ cs)).1 ≡ []
unfolding remove_client
remove_client-first c cs = rw (==_refl c.address) refl

served-none :
    (ready : Ready) (input : Input) (d : Clients)
    → d.base ≡ []
    → fuse_scan_extra_fds none ready input d ≡ (false, d)
unfolding fuse_scan_extra_fds fuse_process_client_fds serve_first
served-none ready input d e = ap (λ cs. serve_first ready input cs d) e

-- When the command of the first client in the list has been answered, the daemon has forgotten all other
-- clients: whatever they have sent, it serves none of them, as long as no new client connects.
pub process_command_thread-forgets :
    (process : Command → ℕ) (c : Client) (cs : List Client) (d : Clients) (ready : Ready)
    (input : Input)
    → d.base ≡ c ∷ cs
    → (c.fd == 0) ≡ false
    → let d' = process_command_thread process c d in
      (d'.base ≡ []) × (fuse_scan_extra_fds none ready input d' ≡ (false, d'))
unfolding process_command_thread
process_command_thread-forgets process c cs d ready input b f =
    let empty : (process_command_thread process c d).base ≡ [] =
      rw (f, process_command_thread)
        (ap (λ l. (remove_client c.address l).1) b ∙ remove_client-first c cs) in
    (empty, served-none ready input (process_command_thread process c d) empty)
