-- ===== src/Tests/Daemon.antt =====
-- The commands of the daemon at concrete inputs.
use time_capsule_mount.Prelude.{◌≡◌, refl, true, false, none, some, List, [], ◌∷◌, codes}
use time_capsule_mount.Server.Volumes.{mounted}
use time_capsule_mount.Volume.Names.{convert_utf8pre_to_utf8dec}
use time_capsule_mount.Volume.Spelling.{has_composed}
use time_capsule_mount.Daemon.Clients.{Client, Clients, fuse_scan_extra_fds}
use time_capsule_mount.Daemon.Mounting.{
  Offered, Peer, named_from, find_volume_by_name, process_unmount,
}
use time_capsule_mount.Daemon.Commands.{process_command_thread}
use time_capsule_mount.Daemon.Remaining.{process_command_thread-forgets}
use time_capsule_mount.Daemon.Spelled.{find_volume_by_name-decomposed}
use time_capsule_mount.Daemon.Unmounting.{Unmounts, process_unmount-Unmounts}

abbrev first_client : Client
first_client = record { address = 1; incoming = 6 ∷ []; fd = 7 }

abbrev other_clients : List Client
other_clients = record { address = 2; incoming = []; fd = 8 } ∷ []

abbrev two_clients : Clients
two_clients = record { base = first_client ∷ other_clients; next_address = 3; deeds = [] }

process_command_thread-forgets_example :
    let d' = process_command_thread (λ c. 1) first_client two_clients in
    (d'.base ≡ []) × (fuse_scan_extra_fds none (λ fd. true) (λ fd. some (7 ∷ [])) d' ≡ (false, d'))
process_command_thread-forgets_example =
    process_command_thread-forgets (λ c. 1) first_client other_clients two_clients (λ fd. true)
      (λ fd. some (7 ∷ [])) refl refl

abbrev offered_music : Offered
offered_music = record {
  volume_name_printable = codes "music";
  mountpoint = codes "/mnt";
  has_password = false;
  volpassword = [];
}

find_volume_by_name-decomposed_example : has_composed (codes "music") ≡ false
find_volume_by_name-decomposed_example =
    find_volume_by_name-decomposed (offered_music ∷ []) (codes "music") 0 offered_music
      (unfold find_volume_by_name named_from convert_utf8pre_to_utf8dec in refl)

abbrev music_server : Peer
music_server = record {
  volumes = offered_music ∷ [];
  mounts = record { volumes = record { state = mounted; dtrefnum = 5 } ∷ []; calls = [] };
}

process_unmount-Unmounts_example :
    Unmounts (codes "/mnt") (music_server ∷ []) (process_unmount (codes "/mnt") (music_server ∷ []))
process_unmount-Unmounts_example = process_unmount-Unmounts (codes "/mnt") (music_server ∷ [])
