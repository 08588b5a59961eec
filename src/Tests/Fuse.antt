-- ===== src/Tests/Fuse.antt =====
-- What FUSE calls at concrete inputs, with the sizes and the links of a volume.
use time_capsule_mount.Prelude.{
  ℕ, ◌≤◌, ◌≡◌, refl, none, some, List, [], ◌∷◌, ◌++◌, codes, replicate, pos, neg, ltb,
  if◌then◌else◌, take, drop, Bool-cases, inl, inr, arith,
}
use time_capsule_mount.Afp.Codes.{no_err, eof_err}
use time_capsule_mount.Afp.Types.{zero_info}
use time_capsule_mount.Afp.Request.{Request, Reply, read_ext}
use time_capsule_mount.Afp.Session.{Session, volume_is_readonly}
use time_capsule_mount.Dsi.Wire.{htons}
use time_capsule_mount.Reply.Facts.{Facts, Fits, write_facts}
use time_capsule_mount.Volume.Names.{convert_path_to_afp}
use time_capsule_mount.Volume.Composing.{Unicode}
use time_capsule_mount.Volume.Links.{read_link}
use time_capsule_mount.Volume.LinkForks.{Finished, read_request, read_link-Finished}
use time_capsule_mount.Volume.Space.{ml_statfs}
use time_capsule_mount.Volume.Sizes.{ml_statfs-write_facts}
use time_capsule_mount.Fuse.Operations.{Handle, fuse_open}
use time_capsule_mount.Fuse.Read.{fuse_read}
use time_capsule_mount.Fuse.Answers.{Locks, Replies}
use time_capsule_mount.Fuse.Serving.{
  WithinReach, Answered, some_bytes, all_bytes, fuse_read-Answered,
}
use time_capsule_mount.Fuse.Unread.{Unlisted, AnyRange, fuse_read-unread}
use time_capsule_mount.Fuse.Opening.{refused_errno, fuse_open-refused_errno}
use time_capsule_mount.Prelude.{length-take, length-drop, ◌&&◌, ◌==◌, Option}
use time_capsule_mount.Afp.Session.{get, pure, ◌>>=◌, exchange}
use time_capsule_mount.Afp.Request.{get_file_dir_parms}
use time_capsule_mount.Afp.Types.{FileInfo}
use time_capsule_mount.Did.Lookup.{getfiledirparms}
use time_capsule_mount.Volume.Attr.{ll_get_directory_entry, store_refnum}
use time_capsule_mount.Volume.Meta.{strstr}
use time_capsule_mount.Volume.Composing.{precomposed}
use time_capsule_mount.Volume.Reading.{read_finderinfo, read_comment}
use time_capsule_mount.Volume.Readdir.{ensure_dt_opened, comment_size, add_meta_files}
use time_capsule_mount.Fuse.Operations.{without_null}
use time_capsule_mount.Tests.{session, nothing_there}

abbrev file : List ℕ
file = 1 ∷ 2 ∷ 3 ∷ 4 ∷ 5 ∷ []

abbrev handle : Handle
handle = record { address = 1; file = record zero_info { forkid = 7 } }

abbrev done : Reply
done = record nothing_there { code = no_err }

-- A server that gives one byte at a time.
abbrev one_byte : (offset count : ℕ) → Reply
one_byte offset count =
    if ltb offset 5
    then record done { payload = take 1 (drop offset file) }
    else record done { code = eof_err; payload = take count (drop offset file) }

abbrev byte_peer : List Request → Reply
byte_peer (read_ext f offset count ∷ sent) = one_byte offset count
byte_peer _ = done

abbrev byte_session : Session
byte_session = record session { peer = byte_peer }

byte_peer-Locks : Locks byte_session 7
byte_peer-Locks = record { locks = λ sent offset count. refl; unlocks = λ sent offset count. refl }

byte_peer-Answered :
    Replies byte_session 7 (WithinReach byte_session) (Answered byte_session.rx_quantum file)
byte_peer-Answered sent offset count h near = elim (Bool-cases (ltb offset 5)) [
  | inl e ↦ rw e (some_bytes 1 (omega arith) h (omega arith) (ground arith) refl refl)
  | inr e ↦ rw e (
      all_bytes (ground arith)
        (omega (arith, length-take count (drop offset file), length-drop offset file)) refl refl)
]

fuse_read-Answered_example :
    (fuse_read 8 (replicate 8 0) (codes "/a/f") 8 1 (some handle) byte_session).0
    ≡ some (pos 4, 2 ∷ 3 ∷ 4 ∷ 5 ∷ 0 ∷ 0 ∷ 0 ∷ 0 ∷ [])
unfolding convert_path_to_afp
fuse_read-Answered_example =
    fuse_read-Answered byte_session handle file (codes "/a/f") (codes "/a/f") 8 (replicate 8 0) 8 1
      refl refl byte_peer-Locks byte_peer-Answered (omega arith) (omega arith) (omega arith)
      (λ old. omega arith)

-- A server that has lost the file.
abbrev lost_peer : List Request → Reply
lost_peer (read_ext f offset count ∷ sent) = nothing_there
lost_peer _ = done

abbrev lost_session : Session
lost_session = record session { peer = lost_peer }

lost_peer-Locks : Locks lost_session 7
lost_peer-Locks = record { locks = λ sent offset count. refl; unlocks = λ sent offset count. refl }

lost_peer-Unlisted : Replies lost_session 7 AnyRange Unlisted
lost_peer-Unlisted sent offset count h any = record {
  no_access_denied = refl;
  no_lock_err = refl;
  no_misc_err = refl;
  no_param_err = refl;
  no_eof_err = refl;
  no_data = refl;
}

fuse_read-unread_example :
    (fuse_read 1000 (replicate 8 0) (codes "/a/f") 8 0 (some handle) lost_session).0 ≡ none
unfolding convert_path_to_afp
fuse_read-unread_example =
    fuse_read-unread lost_session handle (codes "/a/f") (codes "/a/f") 1000 (replicate 8 0) 8 0 refl
      refl lost_peer-Locks lost_peer-Unlisted (omega arith) (omega arith)

fuse_open-refused_errno_example :
    (fuse_open 1 (codes "/a/f") session
      ≡ (some (neg (refused_errno session (codes "/a/f")), none), session))
    × (1 ≤ refused_errno session (codes "/a/f"))
fuse_open-refused_errno_example =
    fuse_open-refused_errno 1 (codes "/a/f") session (unfold volume_is_readonly in refl)

abbrev same : Unicode
same = record { utf8_to_ucs2 = λ s. s; ucs2_precompose = λ a b. none; ucs2_to_utf8 = λ s. s }

read_link-Finished_example :
    let (o, s') = read_link same 2 handle.file 100 lost_session in
    Finished 2 7 session.open_forks
      (read_request lost_session.av_number 7 100 ∷ lost_session.sent)
      o
      s'
read_link-Finished_example = read_link-Finished same 2 handle.file 100 lost_session

abbrev disk : Facts
disk = record {
  attributes = 0;
  signature = 3;
  creation_date = 0;
  modification_date = 0;
  backup_date = 0;
  volid = 9;
  bytes_free = 4294967295;
  bytes_total = 4294967295;
  name_offset = 0;
  ext_bytes_free = 500000000000;
  ext_bytes_total = 1000000000000;
  block_size = 8192;
}

disk-Fits : Fits disk
disk-Fits = record {
  attributes = omega arith;
  signature = omega arith;
  creation_date = omega arith;
  modification_date = omega arith;
  backup_date = omega arith;
  volid = omega arith;
  bytes_free = omega arith;
  bytes_total = omega arith;
  name_offset = omega arith;
  ext_bytes_free = omega arith;
  ext_bytes_total = omega arith;
  block_size = omega arith;
}

abbrev disk_session : Session
disk_session = record session {
  peer = λ sent. record done { payload = htons 0xe00 ++ write_facts 0xe00 disk [] };
}

ml_statfs-write_facts_example : (ml_statfs disk_session).0 ≡ (
  pos 0,
  record {
    f_blocks = 122070312;
    f_bfree = 61035156;
    f_bavail = 61035156;
    f_bsize = 8192;
    f_namemax = 255;
  },
)
ml_statfs-write_facts_example = ml_statfs-write_facts disk_session disk [] disk-Fits refl refl

-- An umlaut that comes as two characters.
abbrev umlaut : ℕ → ℕ → Option ℕ
umlaut a b = if a == 0x61 && b == 0x308 then some 0xe4 else none

precomposed_run :
    precomposed umlaut 0 (0x62 ∷ 0x61 ∷ 0x308 ∷ 0x63 ∷ 0x61 ∷ []) ≡ 0x62 ∷ 0xe4 ∷ 0x63 ∷ 0x61 ∷ []
unfolding precomposed
precomposed_run = refl

without_null_run :
    (without_null (codes "/d/(null)") ≡ codes "/d")
    × (without_null (codes "(null)") ≡ codes "(null)")
unfolding without_null strstr
without_null_run = (refl, refl)

-- The finder info of a file with a comment is overwritten by the comment.
abbrev comment_peer : List Request → Reply
comment_peer (get_file_dir_parms d f b name ∷ sent) = record done {
  info = some (record zero_info { finderinfo = replicate 32 9 });
}
comment_peer _ = record done { payload = 65 ∷ 66 ∷ [] }

read_finderinfo_run :
    let r =
      (read_finderinfo (0 ∷ 0 ∷ 0 ∷ []) 3 0 zero_info (record session { peer = comment_peer })).0 in
    (r.returns ≡ pos 1) × (r.buffer ≡ 65 ∷ 66 ∷ 9 ∷ []) × (r.amount ≡ 2)
unfolding read_finderinfo read_comment ll_get_directory_entry getfiledirparms ◌>>=◌ get pure
    exchange
read_finderinfo_run = (refl, refl, refl)

-- An entry below .AppleDouble that is no plain file is freed, and the list is read on from it.
add_meta_files_run :
    let entry : FileInfo = record zero_info { resourcesize = 1 } in
    (add_meta_files (entry ∷ []) [] session).0 ≡ none
unfolding add_meta_files comment_size ensure_dt_opened store_refnum ◌>>=◌ get pure exchange
add_meta_files_run = refl
