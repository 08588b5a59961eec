-- ===== src/Tests/Volumes.antt =====
-- The volume operations at concrete inputs.
use time_capsule_mount.Prelude.{◌≡◌, refl, true, false, [], ◌∷◌, codes, All, arith, pos}
use time_capsule_mount.Afp.Types.{zero_info}
use time_capsule_mount.Afp.Session.{volume_is_readonly, IsHarmless}
use time_capsule_mount.Volume.Users.{afp_detect_mapping, translate_uidgid_to_client}
use time_capsule_mount.Volume.Forks.{remove_fork_list}
use time_capsule_mount.Volume.Data.{write_chunks}
use time_capsule_mount.Volume.Open.{ll_open}
use time_capsule_mount.Volume.ReadOnly.Safety.{
  creat, mkdir, unlink, open_file, write_file, read_file, readlink, readdir, perform_all,
  perform_all-IsHarmless, Operation,
}
use time_capsule_mount.Volume.Writing.{Wrote, write_chunks-Wrote}
use time_capsule_mount.Volume.Mapping.{Settled, agrees, afp_detect_mapping-agrees}
use time_capsule_mount.Volume.Users.{mapping_common, mapping_loginids}
use time_capsule_mount.Volume.Closing.{Closed, remove_fork_list-Closed}
use time_capsule_mount.Volume.Tries.{Ends, ll_open-Ends}
use time_capsule_mount.Volume.Composing.{Unicode}
use time_capsule_mount.Tests.{session}
use time_capsule_mount.Afp.Types.{OpenFlags}
use time_capsule_mount.Prelude.{List, none, if◌then◌else◌}

abbrev read_flags : OpenFlags
read_flags = record {
  o_wronly = false;
  o_rdwr = false;
  o_creat = false;
  o_trunc = false;
  o_append = false;
  o_largefile = false;
}

abbrev plain : Unicode
plain = record { utf8_to_ucs2 = λ s. s; ucs2_precompose = λ a b. none; ucs2_to_utf8 = λ s. s }

abbrev attempts : List Operation
attempts =
    creat (codes "/a/file") 0x1a4
    ∷ mkdir (codes "/a/new")
    ∷ unlink (codes "/a/b")
    ∷ write_file (codes "/a/file") (1 ∷ 2 ∷ 3 ∷ []) 0 zero_info
    ∷ open_file 2 (codes "/a/b") read_flags
    ∷ read_file (0 ∷ 0 ∷ []) (codes "/a/b") 2 0 zero_info
    ∷ readlink plain (codes "/a/b") 100
    ∷ readdir 3 (codes "/a")
    ∷ []

perform_all-IsHarmless_example :
    (volume_is_readonly (perform_all attempts session) ≡ true)
    × All IsHarmless (perform_all attempts session).sent
perform_all-IsHarmless_example =
    perform_all-IsHarmless attempts session (unfold volume_is_readonly in refl) tt

write_chunks-Wrote_example :
    let r = write_chunks 5 7 100 0 (1 ∷ 2 ∷ 3 ∷ 4 ∷ 5 ∷ []) session in
    (r.0 ≡ 5) × Wrote 31 7 100 [] (1 ∷ 2 ∷ 3 ∷ 4 ∷ 5 ∷ []) r.1.sent
write_chunks-Wrote_example =
    write_chunks-Wrote 7 100 (1 ∷ 2 ∷ 3 ∷ 4 ∷ 5 ∷ []) session (omega arith) (λ old. omega arith)

afp_detect_mapping-agrees_example :
    let s' = (afp_detect_mapping session).1 in
    (s'.mapping ≡ (if agrees session then mapping_common else mapping_loginids))
    × Settled s'
    × ((translate_uidgid_to_client s' 5 6).0 ≡ pos 0)
afp_detect_mapping-agrees_example = afp_detect_mapping-agrees session 5 6 refl

remove_fork_list-Closed_example :
    let s' = (remove_fork_list session).1 in
    (s'.open_forks ≡ []) × All (Closed s'.sent) session.open_forks
remove_fork_list-Closed_example = remove_fork_list-Closed session

ll_open-Ends_example : Ends (ll_open 1 5 (codes "/a/f") read_flags zero_info session).0
ll_open-Ends_example = ll_open-Ends 0 5 (codes "/a/f") read_flags zero_info session refl
