-- ===== src/Did/Steps.antt =====
-- The rounds of get_dirid of lib/did.c on paths made of names.
use time_capsule_mount.Prelude.{
  ℕ, suc, ◌≡◌, refl, ap, ◌∙◌, true, some, List, [], ◌∷◌, ◌++◌, CString, ℤ, ◌==◌, if◌then◌else◌,
  arith, length, All,
}
use time_capsule_mount.Afp.Bits.{node_id_bit, root_did}
use time_capsule_mount.Afp.Types.{FileInfo}
use time_capsule_mount.Afp.Request.{get_file_dir_parms}
use time_capsule_mount.Afp.Session.{Session, exchange}
use time_capsule_mount.Did.Lookup.{
  slash, find_dirid_by_fullname, add_did_cache_entry, count_miss, getfiledirparms, walk_back,
  walk_forward, located, resume, get_dirid,
}
use time_capsule_mount.Did.Paths.{IsName, path_of, strchr-name, strchr-none, strrchr-name}

-- The state after a round of the second loop has asked for a directory, and what it was told.
unfoldable pub asked : ℕ → CString → FileInfo → Session → (ℤ × FileInfo) × Session
asked d name fi s = getfiledirparms d node_id_bit node_id_bit name fi (count_miss s).1

pub told :
    (d : ℕ) (fi i : FileInfo) (name : CString) (s : Session)
    → (s.peer (get_file_dir_parms d node_id_bit node_id_bit name ∷ s.sent)).info ≡ some i
    → (asked d name fi s).0.1 ≡ i
unfolding asked getfiledirparms count_miss exchange
told d fi i name s e = rw e

pub walk_forward_ask :
    (n d : ℕ) (fi : FileInfo) (done name behind : CString) (s : Session)
    → IsName name
    → walk_forward (suc n) d fi done (slash ∷ (name ++ slash ∷ behind)) s ≡ (
        let a = asked d (slash ∷ name) fi s in
        if a.0.1.isdir
        then walk_forward n a.0.1.fileid a.0.1
            (done ++ slash ∷ name)
            (slash ∷ behind)
            (add_did_cache_entry a.0.1.fileid (done ++ slash ∷ name) a.1).1
        else (d, a.1))
unfolding walk_forward asked
walk_forward_ask n d fi done name behind s nm = ground (arith, strchr-name name behind nm)

pub walk_forward_told :
    (n d : ℕ) (fi i : FileInfo) (done name behind : CString) (s : Session)
    → IsName name
    → (s.peer (get_file_dir_parms d node_id_bit node_id_bit (slash ∷ name) ∷ s.sent)).info ≡ some i
    → i.isdir ≡ true
    → walk_forward (suc n) d fi done (slash ∷ (name ++ slash ∷ behind)) s
      ≡ walk_forward n i.fileid i
          (done ++ slash ∷ name)
          (slash ∷ behind)
          (add_did_cache_entry i.fileid (done ++ slash ∷ name) (asked d (slash ∷ name) fi s).1).1
walk_forward_told n d fi i done name behind s nm e dir =
    let after = (asked d (slash ∷ name) fi s).1 in
    walk_forward_ask n d fi done name behind s nm
    ∙ ap
        (λ (f : FileInfo).
          if f.isdir
          then walk_forward n f.fileid f (done ++ slash ∷ name) (slash ∷ behind)
              (add_did_cache_entry f.fileid (done ++ slash ∷ name) after).1
          else (d, after))
        (told d fi i (slash ∷ name) s e)
    ∙ simp dir

pub path_tail :
    (back : List CString) (base : CString)
    → (behind : CString) × (path_of back ++ slash ∷ base ≡ slash ∷ behind)
unfolding path_of
path_tail [] base = (base, refl)
path_tail (c ∷ cs) base = ((c ++ path_of cs) ++ slash ∷ base, refl)

pub All-snoc :
    (xs : List CString) (y : CString) → All IsName xs → IsName y → All IsName (xs ++ y ∷ [])
All-snoc [] y a n = (n, tt)
All-snoc (x ∷ xs) y a n = (a.0, All-snoc xs y a.1 n)

pub walk_forward_stop :
    (n d : ℕ) (fi : FileInfo) (done base : CString) (s : Session)
    → IsName base
    → walk_forward (suc n) d fi done (slash ∷ base) s ≡ (d, s)
unfolding walk_forward
walk_forward_stop n d fi done base s nb = ground (arith, strchr-none base nb)

pub get_dirid_root :
    (base : CString) (s : Session)
    → IsName base
    → get_dirid (slash ∷ base) s ≡ (located base root_did, s)
unfolding get_dirid
get_dirid_root base s nb = rw (strrchr-name [] base nb, get_dirid)

pub get_dirid_ask :
    (parent : CString) (base : CString) (s : Session)
    → IsName base
    → get_dirid (slash ∷ parent ++ slash ∷ base) s ≡ (
        let r = find_dirid_by_fullname (slash ∷ parent) s in
        let path = slash ∷ parent ++ slash ∷ base in
        let w = walk_back (suc (length path)) (slash ∷ parent) r.1 in
        if r.0 == 0 then resume path base w.0 w.1 else (located base r.0, r.1))
unfolding get_dirid
get_dirid_ask parent base s nb = ground (arith, strrchr-name (slash ∷ parent) base nb)
