-- ===== src/Did/Lookup.antt =====
-- get_dirid and is_dir of lib/did.c. A path is a C string of fewer than AFP_MAX_PATH bytes.
use time_capsule_mount.Prelude.{
  ℕ, zero, suc, ◌+◌, Bool, true, false, Option, none, some, [], ◌∷◌, ◌++◌, CString, ℤ, is_set, ◌==◌,
  if◌then◌else◌, length, take, drop,
}
use mathlib.Core.Option
use time_capsule_mount.Afp.Bits.{node_id_bit, root_did}
use time_capsule_mount.Afp.Types.{FileInfo}
use time_capsule_mount.Afp.Request.{get_file_dir_parms}
use time_capsule_mount.Afp.Session.{DidCache, M, get, put, pure, ◌>>=◌, ◌>>◌, get_time, exchange}
use time_capsule_mount.Did.Cache.{remove_entry, add_entry, find_entry}

abbrev pub slash : ℕ
slash = b'/'

-- strrchr(s,'/'): what stands before the last slash, and what stands behind it.
unfoldable pub strrchr : CString → Option (CString × CString)
strrchr [] = none
strrchr (c ∷ s) = elim (strrchr s) [
  | some (before, behind) ↦ some (c ∷ before, behind)
  | none ↦ if c == slash then some ([], s) else none
]

-- strchr(s,'/'), likewise for the first slash.
unfoldable pub strchr : CString → Option (CString × CString)
strchr [] = none
strchr (c ∷ s) =
    if c == slash
    then some ([], s)
    else Option.map (λ (before, behind). (c ∷ before, behind)) (strchr s)

-- The cache operations at the time of the clock.
unfoldable pub find_dirid_by_fullname : CString → M ℕ
unfolding ◌>>=◌ pure get put get_time
find_dirid_by_fullname path = do
  now ← get_time
  s ← get
  let r = find_entry now path s.did_cache
  put (record s { did_cache = r.1 })
  pure r.0

unfoldable pub add_did_cache_entry : ℕ → CString → M (Unit {0})
unfolding ◌>>=◌ pure get put get_time
add_did_cache_entry new_did path = do
  now ← get_time
  s ← get
  put (record s { did_cache = add_entry now new_did path s.did_cache })

unfoldable pub remove_did_entry : CString → M (Unit {0})
unfolding ◌>>=◌ pure get put
remove_did_entry name s = (tt, record s { did_cache = remove_entry name s.did_cache })

unfoldable pub count_miss : M (Unit {0})
unfolding ◌>>=◌ pure get put
count_miss s = (tt, record s { did_cache = record c { misses = c.misses + 1 } })
  where
    c : DidCache
    c = s.did_cache

-- afp_getfiledirparms(volume,did,filebitmap,dirbitmap,name,&fi), where `fi` held `old`
unfoldable pub getfiledirparms : ℕ → ℕ → ℕ → CString → FileInfo → M (ℤ × FileInfo)
unfolding ◌>>=◌ pure get put exchange
getfiledirparms did file_bitmap dir_bitmap name old = do
  r ← exchange (get_file_dir_parms did file_bitmap dir_bitmap name)
  pure (r.code, Option.get_or r.info old)

unfoldable pub is_dir : ℕ → CString → M Bool
unfolding ◌>>=◌ pure get put getfiledirparms
is_dir parentdid path = do
  s ← get
  (ret, fi) ← getfiledirparms parentdid 0 0 path s.garbage
  pure (if is_set ret then false else fi.isdir)

-- The first loop of get_dirid, on what is left of `copy`: the id to start from, and how far into the
-- path it stands. `none` is a path with no slash in front, where the code computes with a null pointer.
unfoldable pub walk_back : ℕ → CString → M (Option (ℕ × ℕ))
unfolding ◌>>=◌ pure get put
walk_back zero copy = pure none
walk_back (suc n) copy = elim (strrchr copy) [
  | none ↦ pure none
  | some ([], _) ↦ pure (some (root_did, 0))
  | some (c ∷ before, _) ↦ do
    parent_did ← find_dirid_by_fullname (c ∷ before)
    elim (parent_did == 0) [
      | true ↦ walk_back n (c ∷ before)
      | false ↦ pure (some (parent_did, suc (length before)))
    ]
]

-- The second loop, with the directory `parent_did` reached at the end of `done`, and `p` at the first
-- character of the rest. The result of afp_getfiledirparms is ignored: only `fi` is read.
unfoldable pub walk_forward : ℕ → ℕ → FileInfo → CString → CString → M ℕ
unfolding ◌>>=◌ pure get put
walk_forward zero parent_did fi done rest = pure parent_did
walk_forward (suc n) parent_did fi done [] = pure parent_did
walk_forward (suc n) parent_did fi done (c ∷ rest) = elim (strchr rest) [
  | none ↦ pure parent_did
  | some (name, behind) ↦ do
    count_miss
    (ret, fi') ← getfiledirparms parent_did node_id_bit node_id_bit (c ∷ name) fi
    elim fi'.isdir [
      | false ↦ pure parent_did
      | true ↦ do
        add_did_cache_entry fi'.fileid (done ++ c ∷ name)
        walk_forward n fi'.fileid fi' (done ++ c ∷ name) (slash ∷ behind)
    ]
]

-- What get_dirid gives back.
pub data Located : Type 0 where
  -- return 0: the base name, and the id of the directory that holds it
  located : (basename : CString) → (dirid : ℕ) → Located
  -- return -1: the path has no slash
  no_slash : Located
  -- the path is relative and its parent is not cached: undefined behaviour
  relative : Located

-- From the end of the first loop to the end of get_dirid.
unfoldable pub resume : CString → CString → Option (ℕ × ℕ) → M Located
unfolding ◌>>=◌ pure get put
resume path basename none = pure relative
resume path basename (some (parent_did, at)) = do
  s ← get
  dirid ← walk_forward (suc (length path)) parent_did s.garbage (take at path) (drop at path)
  pure (located basename dirid)

unfoldable pub get_dirid : CString → M Located
unfolding ◌>>=◌ pure get put resume walk_back walk_forward find_dirid_by_fullname
    add_did_cache_entry count_miss getfiledirparms
get_dirid path = elim (strrchr path) [
  | none ↦ pure no_slash
  | some ([], basename) ↦ pure (located basename root_did)
  | some (c ∷ parent, basename) ↦ do
    newdid ← find_dirid_by_fullname (c ∷ parent)
    elim (newdid == 0) [
      | false ↦ pure (located basename newdid)
      | true ↦ do start ← walk_back (suc (length path)) (c ∷ parent); resume path basename start
    ]
]
