-- ===== src/Afp/Request.antt =====
-- The calls that the volume operations make of the request builders (lib/proto_*.c), one constructor
-- for each builder, with the arguments that go into the packet.
use time_capsule_mount.Prelude.{ℕ, ℤ, Bool, true, false, List, CString, Option}
use time_capsule_mount.Afp.Types.{FileInfo}

pub data Request : Type 0 where
  create_file : (flag did : ℕ) → CString → Request
  create_dir : (did : ℕ) → CString → Request
  delete : (did : ℕ) → CString → Request
  move_and_rename :
      (did_from did_to : ℕ)
      → (from : CString) → (to : Option CString) → (new_name : CString) → Request
  open_fork : (resource did access : ℕ) → CString → Request
  close_fork flush_fork : (forkid : ℕ) → Request
  read read_ext : (forkid offset count : ℕ) → Request
  write write_ext : (forkid offset count : ℕ) → List ℕ → Request
  set_fork_parms : (forkid bitmap len : ℕ) → Request
  lock lock_ext unlock unlock_ext : (forkid offset count : ℕ) → Request
  get_file_dir_parms : (did file_bitmap dir_bitmap : ℕ) → CString → Request
  set_file_dir_parms set_dir_parms set_file_parms :
      (did : ℕ) → CString → (bitmap : ℕ) → FileInfo → Request
  enumerate enumerate_ext2 :
      (did file_bitmap dir_bitmap reqcount startindex : ℕ) → CString → Request
  open_dt : Request
  get_comment : (did : ℕ) → CString → Request
  add_comment : (did : ℕ) → CString → List ℕ → Request
  get_vol_parms : (bitmap : ℕ) → Request
  get_user_info : (bitmap : ℕ) → Request
  map_id : (subfunction id : ℕ) → Request

-- What such a call gives back: its return value, and what the reply handler stores through the
-- pointer that the call was given. `info` is `none` where the handler stores nothing, as when the
-- server reports an error.
pub record Reply : Type 0 where
  pub code : ℤ
  pub info : Option FileInfo
  pub entries : List FileInfo
  pub payload : List ℕ
  pub value : ℕ

-- The requests that change nothing on the server's volume.
abbrev pub is_harmless : Request → Bool
is_harmless (create_file f d n) = false
is_harmless (create_dir d n) = false
is_harmless (delete d n) = false
is_harmless (move_and_rename a b c d e) = false
is_harmless (write f o c d) = false
is_harmless (write_ext f o c d) = false
is_harmless (set_fork_parms f b l) = false
is_harmless (set_file_dir_parms d n b i) = false
is_harmless (set_dir_parms d n b i) = false
is_harmless (set_file_parms d n b i) = false
is_harmless (add_comment d n c) = false
is_harmless (open_fork r d a n) = true
is_harmless _ = true
