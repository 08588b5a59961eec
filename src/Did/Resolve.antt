-- ===== src/Did/Resolve.antt =====
-- get_dirid against its specification: the walk from the root through the names of the path, on a
-- server whose directories do not change.
use time_capsule_mount.Prelude.{
  ℕ, zero, suc, ◌<◌, ◌≡◌, ◌≢◌, refl, ap, ◌∙◌, sym, subst, true, Option, some, List, [], ◌∷◌, ◌++◌,
  inl, inr, CString, ◌==◌, str_eq→eq, if◌then◌else◌, arith, length, All, append_assoc,
  length-append, Bool-cases,
}
use time_capsule_mount.Afp.Bits.{node_id_bit, root_did}
use time_capsule_mount.Afp.Types.{FileInfo}
use time_capsule_mount.Afp.Request.{Request, Reply, get_file_dir_parms}
use time_capsule_mount.Afp.Session.{CacheEntry, Session}
use time_capsule_mount.Did.Cache.{add_entry}
use time_capsule_mount.Did.Freshness.{Exists, Answers, find_entry-Answers, find_entry-All}
use time_capsule_mount.Did.Lookup.{
  slash, strrchr, find_dirid_by_fullname, add_did_cache_entry, walk_back,
}
use time_capsule_mount.Did.Paths.{
  IsName, path_of, names, strrchr-name, names-path_of, path_of-snoc, snoc_cases,
}

walk_back_root :
    (n : ℕ) (copy y : CString) (s : Session)
    → strrchr copy ≡ some ([], y)
    → walk_back (suc n) copy s ≡ (some (root_did, 0), s)
unfolding walk_back
walk_back_root n copy y s e = rw (e, walk_back)

walk_back_step :
    (n : ℕ) (copy : CString) (c : ℕ) (before y : CString) (s : Session)
    → strrchr copy ≡ some (c ∷ before, y)
    → walk_back (suc n) copy s ≡ (
        let r = find_dirid_by_fullname (c ∷ before) s in
        if r.0 == 0 then walk_back n (c ∷ before) r.1 else (some (r.0, suc (length before)), r.1))
unfolding walk_back
walk_back_step n copy c before y s e = ground (arith, e)

-- The directories of a server: the id of the directory of that name (with its slash) in the directory
-- of that id, or 0.
abbrev pub Tree : Type 0
Tree = ℕ → CString → ℕ

module _ (tree : Tree) where
  unfoldable pub resolve : ℕ → List CString → ℕ
  resolve d [] = d
  resolve d (c ∷ cs) = resolve (tree d (slash ∷ c)) cs

  -- The names lead through directories.
  abbrev pub AreDirs : ℕ → List CString → Type 0
  AreDirs d [] = Unit {0}
  AreDirs d (c ∷ cs) = IsName c × (tree d (slash ∷ c) ≢ 0) × AreDirs (tree d (slash ∷ c)) cs

  -- The entry has the id that the walk from the root gives.
  abbrev pub IsRight : CacheEntry → Type 0
  IsRight e = e.did ≡ resolve root_did (names e.dirname).1

  -- The server answers for its directories, whatever was asked before.
  abbrev pub Serves : (List Request → Reply) → Type 0
  Serves peer =
      (sent : List Request) (did : ℕ) (name : CString)
      → tree did name ≢ 0
      → (i : FileInfo) × ((peer (get_file_dir_parms did node_id_bit node_id_bit name ∷ sent)).info
          ≡ some i)
        × (i.isdir ≡ true)
        × (i.fileid ≡ tree did name)

  pub record Ready (s : Session) : Type 0 where
    pub serves : Serves s.peer
    pub coherent : All IsRight s.did_cache.base

  pub AreDirs-All : (d : ℕ) (cs : List CString) → AreDirs d cs → All IsName cs
  AreDirs-All d [] a = tt
  AreDirs-All d (c ∷ cs) a = (a.0, AreDirs-All (tree d (slash ∷ c)) cs a.2)

  pub resolve-append :
      (d : ℕ) (xs ys : List CString) → resolve d (xs ++ ys) ≡ resolve (resolve d xs) ys
  unfolding resolve
  resolve-append d [] ys = refl
  resolve-append d (x ∷ xs) ys = resolve-append (tree d (slash ∷ x)) xs ys

  pub AreDirs-append :
      (d : ℕ) (xs ys : List CString)
      → AreDirs d (xs ++ ys)
      → AreDirs d xs × AreDirs (resolve d xs) ys
  unfolding resolve
  AreDirs-append d [] ys a = (tt, a)
  AreDirs-append d (x ∷ xs) ys a =
      let r = AreDirs-append (tree d (slash ∷ x)) xs ys a.2 in ((a.0, a.1, r.0), r.1)

  Exists-IsRight :
      (now did : ℕ) (path : CString) (xs : List CacheEntry)
      → All IsRight xs
      → Exists (Answers now path did) xs
      → did ≡ resolve root_did (names path).1
  Exists-IsRight now did path [] a h = absurd h
  Exists-IsRight now did path (x ∷ xs) a (inl h) =
      sym h.1 ∙ a.0 ∙ ap (λ p. resolve root_did (names p).1) (str_eq→eq x.dirname path h.0)
  Exists-IsRight now did path (x ∷ xs) a (inr h) = Exists-IsRight now did path xs a.1 h

  module _ (s : Session) (ready : Ready s) where
    pub find-Ready : (path : CString) → Ready (find_dirid_by_fullname path s).1
    unfolding find_dirid_by_fullname
    find-Ready path = record {
      serves = ready.serves;
      coherent = find_entry-All IsRight (s.clock s.readings) path s.did_cache ready.coherent;
    }

    pub find-resolve :
        (path : CString)
        → (find_dirid_by_fullname path s).0 ≢ 0
        → (find_dirid_by_fullname path s).0 ≡ resolve root_did (names path).1
    unfolding find_dirid_by_fullname
    find-resolve path h =
        Exists-IsRight (s.clock s.readings) _ path s.did_cache.base ready.coherent
          (find_entry-Answers (s.clock s.readings) path s.did_cache h)

    pub add-Ready :
        (did : ℕ) (path : CString)
        → did ≡ resolve root_did (names path).1
        → Ready (add_did_cache_entry did path s).1
    unfolding add_did_cache_entry add_entry
    add-Ready did path e = record { serves = ready.serves; coherent = (e, ready.coherent) }

  -- Where the search upwards stops: at an id that the walk gives, with the rest still to go.
  pub record Started (cs : List CString) (r : Option (ℕ × ℕ) × Session) : Type 0 where
    pub front : List CString
    pub back : List CString
    pub split : cs ≡ front ++ back
    pub start : r.0 ≡ some (resolve root_did front, length (path_of front))
    pub after : Ready r.1

  Started-later :
      (cs : List CString) (y : CString) (r : Option (ℕ × ℕ) × Session)
      → Started cs r
      → Started (cs ++ y ∷ []) r
  Started-later cs y r st = record {
    front = st.front;
    back = st.back ++ y ∷ [];
    split = ap (λ l. l ++ y ∷ []) st.split ∙ append_assoc st.front st.back (y ∷ []);
    start = st.start;
    after = st.after;
  }

  pub walk_back-Started :
      (n : ℕ) (s : Session) (ys : List CString) (y : CString)
      → Ready s
      → AreDirs root_did (ys ++ y ∷ [])
      → length ys < n
      → Started (ys ++ y ∷ []) (walk_back n (path_of ys ++ slash ∷ y) s)
  unfolding path_of resolve
  walk_back-Started zero s ys y ready dirs fuel = absurd (omega arith)
  walk_back-Started (suc n) s [] y ready dirs fuel =
      rw (walk_back_root n (slash ∷ y) y s (strrchr-name [] y dirs.0))
        (record { front = []; back = y ∷ []; split = refl; start = refl; after = ready })
  walk_back-Started (suc n) s (z ∷ zs) y ready dirs fuel =
      let parts = AreDirs-append root_did (z ∷ zs) (y ∷ []) dirs in
      let copy : CString = path_of (z ∷ zs) in
      let searched = find-Ready s ready copy in
      rw
        (walk_back_step n (copy ++ slash ∷ y) slash (z ++ path_of zs) y s
          (strrchr-name copy y parts.1.0))
        (elim (Bool-cases ((find_dirid_by_fullname copy s).0 == 0)) [
          | inl unknown ↦ rw unknown (elim (snoc_cases (z ∷ zs)) [
            | inl e ↦ absurd (omega (arith, ap length e))
            | inr (ws, w, e) ↦ Started-later (z ∷ zs) y _ (
                subst (λ l. Started l (walk_back n (path_of l) (find_dirid_by_fullname copy s).1))
                  (sym e)
                  (subst
                    (λ p. Started (ws ++ w ∷ []) (walk_back n p (find_dirid_by_fullname copy s).1))
                    (sym (path_of-snoc ws w))
                    (walk_back-Started n (find_dirid_by_fullname copy s).1 ws w searched
                      (subst (AreDirs root_did) e parts.0)
                      (omega (arith, ap length e, length-append ws (w ∷ []))))))
          ])
          | inr known ↦ rw known (record {
            front = z ∷ zs;
            back = y ∷ [];
            split = refl;
            start =
                ap (λ d. some (d, length copy))
                  (find-resolve s ready copy (ground arith)
                    ∙ ap (λ p. resolve root_did p.1)
                        (names-path_of (z ∷ zs) (AreDirs-All root_did (z ∷ zs) parts.0)));
            after = searched;
          })
        ])
