-- ===== src/Volume/ReadOnly/Lookups.antt =====
-- Finding a file, and asking for its attributes, changes nothing on the server.
use time_capsule_mount.Prelude.{
  ℕ, zero, suc, Bool, refl, Option, none, some, [], ◌∷◌, CString, neg, ◌==◌, ◌++◌, length, take,
  drop, inl, inr, Option-cases,
}
use time_capsule_mount.Afp.Bits.{root_did, node_id_bit}
use time_capsule_mount.Afp.Types.{FileInfo, zero_stat}
use time_capsule_mount.Afp.Session.{volume_is_readonly}
use time_capsule_mount.Did.Lookup.{
  located, no_slash, relative, slash, strchr, strrchr, find_dirid_by_fullname, add_did_cache_entry,
  count_miss, getfiledirparms, walk_back, walk_forward, resume, get_dirid,
}
use time_capsule_mount.Afp.Errno.{enametoolong}
use time_capsule_mount.Volume.Names.{invalid_filename}
use time_capsule_mount.Volume.Attr.{found, ll_get_directory_entry, ll_getattr}
use time_capsule_mount.Volume.ReadOnly.{
  Keeps, pure-Keeps, bind-Keeps, get-Keeps, split-Keeps, option-Keeps, keeps_rules,
}

find_dirid_by_fullname-Keeps : (path : CString) → Keeps (find_dirid_by_fullname path)
unfolding find_dirid_by_fullname volume_is_readonly
find_dirid_by_fullname-Keeps path = record { at = λ s q. q }

add_did_cache_entry-Keeps : (did : ℕ) (path : CString) → Keeps (add_did_cache_entry did path)
unfolding add_did_cache_entry volume_is_readonly
add_did_cache_entry-Keeps did path = record { at = λ s q. q }

count_miss-Keeps : Keeps count_miss
unfolding count_miss volume_is_readonly
count_miss-Keeps = record { at = λ s q. q }

pub getfiledirparms-Keeps :
    (did file_bitmap dir_bitmap : ℕ) (name : CString) (old : FileInfo)
    → Keeps (getfiledirparms did file_bitmap dir_bitmap name old)
unfolding getfiledirparms volume_is_readonly
getfiledirparms-Keeps did file_bitmap dir_bitmap name old = record {
  at = λ s q. (q.0, (refl, q.1));
}

walk_back-Keeps : (n : ℕ) (copy : CString) → Keeps (walk_back n copy)
unfolding walk_back
walk_back-Keeps zero copy = pure-Keeps none
walk_back-Keeps (suc n) copy = elim (Option-cases (strrchr copy)) [
  | inl e ↦ rw (e, walk_back) (pure-Keeps none)
  | inr ((([], behind), e)) ↦ rw (e, walk_back) (pure-Keeps (some (root_did, 0)))
  | inr (((c ∷ before, behind), e)) ↦
      rw (e, walk_back)
        (bind-Keeps _ _ (find_dirid_by_fullname-Keeps (c ∷ before)) λ did.
          split-Keeps (did == 0) _ _ (walk_back-Keeps n (c ∷ before))
            (pure-Keeps (some (did, suc (length before)))))
]

walk_forward-Keeps :
    (n did : ℕ) (fi : FileInfo) (done rest : CString) → Keeps (walk_forward n did fi done rest)
unfolding walk_forward
walk_forward-Keeps zero did fi done rest = pure-Keeps did
walk_forward-Keeps (suc n) did fi done [] = pure-Keeps did
walk_forward-Keeps (suc n) did fi done (c ∷ rest) = elim (Option-cases (strchr rest)) [
  | inl e ↦ rw (e, walk_forward) (pure-Keeps did)
  | inr ((name, behind), e) ↦
      rw (e, walk_forward)
        (bind-Keeps _ _ count_miss-Keeps λ _.
          bind-Keeps _ _ (getfiledirparms-Keeps did node_id_bit node_id_bit (c ∷ name) fi) λ r.
            split-Keeps r.1.isdir _ _
              (bind-Keeps _ _ (add_did_cache_entry-Keeps r.1.fileid (done ++ c ∷ name))
                λ _. walk_forward-Keeps n r.1.fileid r.1 (done ++ c ∷ name) (slash ∷ behind))
              (pure-Keeps did))
]

resume-Keeps :
    (path basename : CString) (start : Option (ℕ × ℕ)) → Keeps (resume path basename start)
unfolding resume
resume-Keeps path basename none = pure-Keeps relative
resume-Keeps path basename (some (did, at)) = bind-Keeps _ _ get-Keeps λ s.
    bind-Keeps _ _
      (walk_forward-Keeps (suc (length path)) did s.garbage (take at path) (drop at path))
      λ dirid. pure-Keeps (located basename dirid)

pub get_dirid-Keeps : (path : CString) → Keeps (get_dirid path)
unfolding get_dirid
get_dirid-Keeps path = elim (Option-cases (strrchr path)) [
  | inl e ↦ rw (e, get_dirid) (pure-Keeps no_slash)
  | inr ((([], behind), e)) ↦ rw (e, get_dirid) (pure-Keeps (located behind root_did))
  | inr (((c ∷ parent, behind), e)) ↦
      rw (e, get_dirid)
        (bind-Keeps _ _ (find_dirid_by_fullname-Keeps (c ∷ parent)) λ newdid.
          split-Keeps (newdid == 0) _ _
            (bind-Keeps _ _ (walk_back-Keeps (suc (length path)) (c ∷ parent))
              λ start. resume-Keeps path behind start)
            (pure-Keeps (located behind newdid)))
]

pub ll_get_directory_entry-Keeps :
    (name : CString) (did file_bitmap dir_bitmap : ℕ) (p : FileInfo)
    → Keeps (ll_get_directory_entry name did file_bitmap dir_bitmap p)
unfolding ll_get_directory_entry
ll_get_directory_entry-Keeps name did file_bitmap dir_bitmap p =
    search (keeps_rules, getfiledirparms-Keeps)

pub ll_getattr-Keeps : (path : CString) (resource : Bool) → Keeps (ll_getattr path resource)
unfolding ll_getattr
ll_getattr-Keeps path resource = bind-Keeps _ _ get-Keeps λ t.
    split-Keeps (invalid_filename t.av_number t.path_encoding path) _ _
      (pure-Keeps (neg enametoolong, zero_stat))
      (bind-Keeps _ _ (get_dirid-Keeps path) λ l. bind-Keeps _ _ get-Keeps λ s.
        option-Keeps (found l) _ _ (search keeps_rules)
          λ p. search (keeps_rules, getfiledirparms-Keeps))
