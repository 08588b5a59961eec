-- ===== src/Tests/Servers.antt =====
-- The list of servers at concrete inputs.
use Prim.Native.Nat.{min}
use mathlib.Core.Option
use time_capsule_mount.Prelude.{
  ℕ, ◌*◌, ◌≡◌, ◌≤◌, refl, sym, ap, ◌∙◌, Bool-cases, inl, inr, Bool, true, false, Option, none, some,
  List, [], ◌∷◌, ◌++◌, codes, pos, ◌==◌, replicate, All, arith, if◌then◌else◌, str_eq,
}
use time_capsule_mount.Server.Registry.{
  AfpServer, Registry, Run, same_address, add_server, server_still_valid, afp_server_remove,
}
use time_capsule_mount.Server.Chain.{has, Chain, contents}
use time_capsule_mount.Server.Removal.{afp_server_remove-Chain}
use time_capsule_mount.Server.Adding.{add_server-unfinished}
use time_capsule_mount.Server.Versions.{AfpVersion, number_of, dsi_parse_versions, pick_version}
use time_capsule_mount.Server.Picking.{write_names, known, pick_version-known}
use time_capsule_mount.Reply.Pascal.{copy_from_pascal}
use time_capsule_mount.Dsi.Wire.{ntohs_at}
use time_capsule_mount.Server.Versions.{dsi_parse_uams}
use time_capsule_mount.Server.Status.{Told, dsi_getstatus_reply}
use time_capsule_mount.Prelude.{◌⊎◌}
use time_capsule_mount.Server.Opening.{
  reports, Answer, Opening, afp_connect_volume, afp_connect_volume-mounted,
}
use time_capsule_mount.Server.Volumes.{
  get_volume, Mounted, AfpVolume, Call, Mounts, afp_unmount_all_volumes,
}
use time_capsule_mount.Server.Unmounting.{afp_unmount_all_volumes-down}
use time_capsule_mount.Server.Connect.{Status, Offer, accepts, afp_server_full_connect}
use time_capsule_mount.Server.Connecting.{NoServer}
use time_capsule_mount.Server.Joining.{
  answering, afp_server_full_connect-Chain, afp_server_full_connect-undefined,
}

abbrev server : ℕ → ℕ → AfpServer
server next fd = record {
  next = next;
  signature = replicate 16 fd;
  server_name = codes "capsule";
  server_name_utf8 = codes "capsule";
  fd = fd;
  used_address = some (fd * 1000, 0);
  volumes = [];
  command_requests = record { request = 70; done_waiting = false } ∷ [];
}

-- Two servers, at the addresses 10 and 20.
abbrev registry : Registry
registry = record {
  server_base = 10;
  heap = λ a. if a == 10 then some (server 20 5) else (if a == 20 then some (server 0 6) else none);
  signalled = [];
  disconnected = [];
}

registry-Chain : Chain registry.heap 10 (10 ∷ 20 ∷ [])
registry-Chain = (refl, refl, refl, server 20 5, refl, (refl, refl, refl, server 0 6, refl, refl))

afp_server_remove-Chain_example :
    (r' : Registry) × (afp_server_remove 3 20 registry ≡ Run.done (pos 0, r'))
    × Chain r'.heap r'.server_base (10 ∷ [])
    × (r'.heap 20 ≡ none)
    × ((a : ℕ) → (a == 20) ≡ false → contents (r'.heap a) ≡ contents (registry.heap a))
    × (r'.signalled ≡ record { request = 70; done_waiting = true } ∷ [])
    × (r'.disconnected ≡ 6 ∷ [])
afp_server_remove-Chain_example =
    afp_server_remove-Chain 3 20 (server 0 6) registry (10 ∷ 20 ∷ []) registry-Chain refl refl
      (omega arith)

add_server-unfinished_example :
    (r' : Registry) × (add_server 20 registry ≡ Run.done r')
    × ((fuel : ℕ) → server_still_valid fuel 30 r' ≡ Run.unfinished)
add_server-unfinished_example =
    add_server-unfinished 20 (server 0 6) registry 30 (10 ∷ 20 ∷ []) registry-Chain refl refl refl

-- A server of 10.5 that speaks two versions, and one that the table does not know.
abbrev names : List (List ℕ)
names = codes "AFP3.1" ∷ codes "AFP4.0" ∷ codes "AFP2.2" ∷ []

pick_version-known_example :
    (v : AfpVersion) × (Option.bind
        (dsi_parse_versions (3 ∷ (write_names names ++ [])))
        (λ vs. pick_version vs 32)
      ≡ some v)
    × (has v.av_number (known names) ≡ true)
    × (has (min 32 32) (known names) ≡ true → v.av_number ≡ min 32 32)
    × (has (min 32 32) (known names) ≡ false → All (λ n. n ≤ v.av_number) (known names))
unfolding number_of
pick_version-known_example =
    pick_version-known names [] 32 (omega arith) (ground arith) (ground arith)

abbrev status : Status
status = record {
  code = pos 0;
  signature = replicate 16 9;
  server_name = codes "office";
  server_name_utf8 = codes "office";
  versions = 31 ∷ 22 ∷ [];
  supported_uams = 5;
}

abbrev offer : ℕ → Offer
offer mask = record {
  requested_version = 32;
  uam_mask = mask;
  username = codes "me";
  password = codes "secret";
  dologin = pos 0;
  login = record { supports_reconnect = false; need_resume = false; tokens = [] };
  getsrvrparms = pos 0;
}

-- What holds of no server of the list.
of_NoServer :
    (test : AfpServer → Bool)
    → test (server 20 5) ≡ false
    → test (server 0 6) ≡ false
    → NoServer (λ p s. test s) registry.heap (10 ∷ 20 ∷ [])
of_NoServer test first second a s m e =
    let passes : Option AfpServer → Bool = λ o. elim o [ none ↦ false | some t ↦ test t ] in
    ap passes (sym e) ∙ (elim (Bool-cases (a == 10)) [
      | inl hit ↦ rw hit first
      | inr miss ↦ elim (Bool-cases (a == 20)) [
        | inl hit ↦ rw (miss, hit) second
        | inr miss' ↦ rw (miss, miss') refl
      ]
    ])

new_address : NoServer (λ p s. same_address s.used_address (9000, 0)) registry.heap (10 ∷ 20 ∷ [])
new_address = of_NoServer (λ s. same_address s.used_address (9000, 0)) refl refl

new_signature : NoServer (λ p s. str_eq s.signature (replicate 16 9)) registry.heap (10 ∷ 20 ∷ [])
new_signature = of_NoServer (λ s. str_eq s.signature (replicate 16 9)) refl refl

afp_server_full_connect-Chain_example :
    (r' : Registry) × (afp_server_full_connect 4 30 40
        (answering (9000, 0) 7 status 8 (offer 4))
        registry
      ≡ Run.done (40, r'))
    × Chain r'.heap r'.server_base (40 ∷ 10 ∷ 20 ∷ [])
unfolding accepts
afp_server_full_connect-Chain_example =
    afp_server_full_connect-Chain 4 30 40 (9000, 0) 7 status 8 (offer 4) registry (10 ∷ 20 ∷ [])
      registry-Chain refl refl refl refl (omega arith) new_address new_signature refl refl

-- The mask of the user shares no method with the server.
afp_server_full_connect-undefined_example :
    afp_server_full_connect 4 30 40 (answering (9000, 0) 7 status 8 (offer 2)) registry
    ≡ Run.undefined
unfolding accepts
afp_server_full_connect-undefined_example =
    afp_server_full_connect-undefined 4 30 40 (9000, 0) 7 status 8 (offer 2) registry (10 ∷ 20 ∷ [])
      registry-Chain refl refl refl refl (omega arith) new_address new_signature refl refl

-- Three volumes; the last two are mounted, and the second has its desktop database open.
abbrev volume : Mounted → ℕ → AfpVolume
volume state dtrefnum = record { state = state; dtrefnum = dtrefnum }

abbrev mounts : Mounts
mounts = record {
  volumes = volume Mounted.unmounted 0 ∷ volume Mounted.mounted 4 ∷ volume Mounted.mounted 0 ∷ [];
  calls = [];
}

afp_unmount_all_volumes-down_example : afp_unmount_all_volumes mounts ≡ (
  pos 1,
  record {
    volumes =
        volume Mounted.unmounted 0 ∷ volume Mounted.unmounted 0 ∷ volume Mounted.unmounted 0 ∷ [];
    calls =
        Call.server_remove
        ∷ Call.logout
        ∷ Call.client_unmount 2
        ∷ Call.remove_forks 2
        ∷ Call.free_did_cache 2
        ∷ Call.flush 2
        ∷ Call.client_unmount 1
        ∷ Call.closedt 4
        ∷ Call.remove_forks 1
        ∷ Call.free_did_cache 1
        ∷ Call.flush 1
        ∷ [];
  },
)
afp_unmount_all_volumes-down_example =
    afp_unmount_all_volumes-down mounts (refl, (refl, (refl, tt))) refl

abbrev answer : Answer
answer = record { ret = pos 0; attributes = 0x40; signature = 2 }

abbrev opening : Opening
opening = record { mounts = mounts; path_encoding = 3; supports_unix = false; remarks = [] }

afp_connect_volume-mounted_example :
    (reports answer.ret ≡ false
      → (answer.signature == 2) ≡ true
      → ((afp_connect_volume 0 31 false answer opening).0 ≡ pos 0)
        × (get_volume (afp_connect_volume 0 31 false answer opening).1.mounts.volumes 0
            ≡ some (volume Mounted.mounted 0))
        × ((afp_connect_volume 0 31 false answer opening).1.path_encoding ≡ 3))
    × ((reports answer.ret ≡ true) ⊎ ((answer.signature == 2) ≡ false)
        → ((afp_connect_volume 0 31 false answer opening).0 ≡ pos 1)
          × ((afp_connect_volume 0 31 false answer opening).1.mounts ≡ mounts))
afp_connect_volume-mounted_example =
    afp_connect_volume-mounted 0 31 false answer opening (volume Mounted.unmounted 0) refl refl

-- A status with a name, one version, no method, a signature and a UTF-8 name.
abbrev status_block : List ℕ
status_block =
    0 ∷ 20 ∷ 0 ∷ 24 ∷ 0 ∷ 32 ∷ 0 ∷ 0 ∷ 2 ∷ 0x20 ∷ 3 ∷ codes "cap"
    ++ (0 ∷ 33 ∷ 0 ∷ 0 ∷ 0 ∷ 49 ∷ 3 ∷ codes "Mac")
    ++ (1 ∷ 6 ∷ codes "AFP3.1")
    ++ (0 ∷ replicate 16 9)
    ++ (0 ∷ 3 ∷ codes "cap")

abbrev nothing_told : Told
nothing_told = record {
  machine_type = [];
  versions = [];
  supported_uams = 0;
  icon = [];
  flags = 0;
  server_name = [];
  signature = [];
  server_name_utf8 = [];
  server_name_printable = [];
}

dsi_getstatus_reply_run :
    dsi_getstatus_reply (λ s. s) none status_block nothing_told
    ≡ some (record {
      machine_type = codes "Mac";
      versions = 31 ∷ [];
      supported_uams = 0;
      icon = [];
      flags = 0x220;
      server_name = codes "cap";
      signature = replicate 16 9;
      server_name_utf8 = codes "cap";
      server_name_printable = codes "cap";
    })
unfolding dsi_getstatus_reply copy_from_pascal ntohs_at dsi_parse_versions dsi_parse_uams
dsi_getstatus_reply_run = refl
