-- ===== src/Daemon/Commands.antt =====
-- The commands of a client: process_suspend, process_resume and process_command_thread of
-- fuse/commands.c.
use time_capsule_mount.Prelude.{
  ℕ, true, false, Option, none, some, List, [], ◌∷◌, ℤ, is_set, ◌==◌, if◌then◌else◌,
}
use time_capsule_mount.Loop.Rounds.{disconnected, Server, Loop, loop_disconnect}
use time_capsule_mount.Daemon.Clients.{Client, Deed, Clients, remove_client}
use time_capsule_mount.Daemon.Mounting.{result_okay, result_error}

-- `found` is the server that find_server_by_name gives, and `ret` what afp_zzzzz returns for it.
unfoldable pub process_suspend : Option Server → (ret : ℤ) → Loop → ℕ × Option Server × Loop
process_suspend none ret l = (result_error, none, l)
process_suspend (some s) ret l = elim (is_set ret) [
  | true ↦ (result_error, some s, l)
  | false ↦
      let (s', l') = loop_disconnect s l in
      (result_okay, some (record s' { connect_state = disconnected }), l')
]

-- `ret` is what afp_server_reconnect returns.
unfoldable pub process_resume : Option Server → (ret : ℤ) → ℕ
process_resume none ret = result_error
process_resume (some s) ret = if is_set ret then result_error else result_okay

-- The cases of the switch on the first byte.
pub data Command : Type 0 where
  mount status unmount suspend resume ping exit unknown : Command

abbrev pub command_of : List ℕ → Command
command_of [] = Command.unknown
command_of (c ∷ bytes) =
    if c == 1
    then Command.mount
    else (if c == 2
        then Command.status
        else (if c == 3
            then Command.unmount
            else (if c == 4
                then Command.suspend
                else (if c == 5
                    then Command.resume
                    else (if c == 6
                        then Command.ping
                        else (if c == 7 then Command.exit else Command.unknown))))))

-- What is sent as the result, where `process` gives what the function of a command returns: 0 for an
-- unknown command, which is none of the results of fuse/afp_server.h.
unfoldable pub command_result : (process : Command → ℕ) → List ℕ → ℕ
command_result process incoming = elim (command_of incoming) [ Command.unknown ↦ 0 | c ↦ process c ]

-- The response is sent, and the client closed and removed.
unfoldable pub process_command_thread : (process : Command → ℕ) → Client → Clients → Clients
process_command_thread process c d =
    let sent = Deed.response c.fd (command_result process c.incoming) ∷ d.deeds in
    if c.fd == 0 then record d { deeds = sent } else record d {
      base = (remove_client c.address d.base).1;
      deeds = Deed.closed c.fd ∷ Deed.rm_fd_and_signal c.fd ∷ sent;
    }
