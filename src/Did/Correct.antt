-- ===== src/Did/Correct.antt =====
-- get_dirid of lib/did.c finds the directory that the walk from the root gives.
use time_capsule_mount.Prelude.{
  ℕ, zero, suc, ◌<◌, ◌≡◌, refl, ap, ◌∙◌, sym, subst, Option, some, List, [], ◌∷◌, ◌++◌, inl, inr,
  CString, ◌==◌, arith, length, All, append_assoc, take-append, drop-append, length-append,
  Bool-cases,
}
use time_capsule_mount.Afp.Bits.{root_did}
use time_capsule_mount.Afp.Types.{FileInfo}
use time_capsule_mount.Afp.Session.{Session, exchange}
use time_capsule_mount.Did.Lookup.{
  slash, find_dirid_by_fullname, count_miss, getfiledirparms, walk_back, walk_forward, Located,
  located, resume, get_dirid,
}
use time_capsule_mount.Did.Paths.{
  IsName, path_of, names, names-path_of, path_of-append, path_of-snoc, snoc_cases,
  length-le-path_of,
}
use time_capsule_mount.Did.Resolve.{
  Tree, resolve, AreDirs, Ready, AreDirs-All, AreDirs-append, resolve-append, find-Ready,
  find-resolve, add-Ready, Started, walk_back-Started,
}
use time_capsule_mount.Did.Steps.{
  asked, walk_forward_told, path_tail, All-snoc, walk_forward_stop, get_dirid_root, get_dirid_ask,
}

module _ (tree : Tree) where
  ask-Ready :
      (s : Session) (d : ℕ) (name : CString) (fi : FileInfo)
      → Ready tree s
      → Ready tree (asked d name fi s).1
  unfolding asked getfiledirparms count_miss exchange
  ask-Ready s d name fi r = record { serves = r.serves; coherent = r.coherent }

  -- What the second loop ends in.
  record Arrived (d : ℕ) (r : ℕ × Session) : Type 0 where
    id : r.0 ≡ d
    ready : Ready tree r.1

  walk_forward-Arrived :
      (n d : ℕ) (fi : FileInfo) (front back : List CString) (base rest : CString) (s : Session)
      → Ready tree s
      → d ≡ resolve tree root_did front
      → All IsName front
      → AreDirs tree d back
      → IsName base
      → rest ≡ path_of back ++ slash ∷ base
      → length back < n
      → Arrived (resolve tree d back) (walk_forward n d fi (path_of front) rest s)
  unfolding resolve path_of
  walk_forward-Arrived zero d fi front back base rest s r at nf dirs nb e fuel =
      absurd (omega arith)
  walk_forward-Arrived (suc n) d fi front [] base rest s r at nf dirs nb e fuel =
      rw (e, walk_forward_stop n d fi (path_of front) base s nb) (record { id = refl; ready = r })
  walk_forward-Arrived (suc n) d fi front (b ∷ back) base rest s r at nf dirs nb e fuel =
      let (i, stored, dir, fileid) = r.serves s.sent d (slash ∷ b) dirs.1 in
      let (behind, tail) = path_tail back base in
      let moved : i.fileid ≡ resolve tree root_did (front ++ b ∷ []) =
        fileid
        ∙ ap (λ x. tree x (slash ∷ b)) at
        ∙ sym (resolve-append tree root_did front (b ∷ [])) in
      let named = All-snoc front b nf dirs.0 in
      let right : i.fileid ≡ resolve tree root_did (names (path_of (front ++ b ∷ []))).1 =
        moved ∙ ap (λ p. resolve tree root_did p.1) (sym (names-path_of (front ++ b ∷ []) named)) in
      rw
        (
          e,
          append_assoc b (path_of back) (slash ∷ base),
          tail,
          walk_forward_told n d fi i (path_of front) b behind s dirs.0 stored dir,
          ← path_of-snoc front b,
          ← fileid,
        )
        (walk_forward-Arrived n i.fileid i (front ++ b ∷ []) back base (slash ∷ behind) _
          (add-Ready tree (asked d (slash ∷ b) fi s).1 (ask-Ready s d (slash ∷ b) fi r) i.fileid
            (path_of (front ++ b ∷ [])) right)
          moved named (subst (λ x. AreDirs tree x back) (sym fileid) dirs.2) nb (sym tail)
          (omega arith))

  -- What get_dirid ends in.
  pub record Finds (base : CString) (d : ℕ) (r : Located × Session) : Type 0 where
    pub located_at : r.0 ≡ located base d
    pub ready_after : Ready tree r.1

  resume_split :
      (front back : List CString) (base : CString) (s : Session)
      → Ready tree s
      → AreDirs tree root_did (front ++ back)
      → IsName base
      → Finds base (resolve tree root_did (front ++ back)) (
          resume
            (path_of front ++ (path_of back ++ slash ∷ base))
            base
            (some (resolve tree root_did front, length (path_of front)))
            s)
  unfolding resume
  resume_split front back base s r dirs nb =
      let rest : CString = path_of back ++ slash ∷ base in
      let parts = AreDirs-append tree root_did front back dirs in
      let arrived =
        walk_forward-Arrived (suc (length (path_of front ++ rest))) _ s.garbage front back base rest
          s r refl (AreDirs-All tree root_did front parts.0) parts.1 nb refl
          (omega (
            arith,
            length-append (path_of front) rest,
            length-append (path_of back) (slash ∷ base),
            length-le-path_of back,
          )) in
      rw
        (
          take-append (path_of front) rest,
          drop-append (path_of front) rest,
          resolve-append tree root_did front back,
        )
        (record { located_at = ap (located base) arrived.id; ready_after = arrived.ready })

  resume-Finds :
      (cs : List CString) (base : CString) (w : Option (ℕ × ℕ) × Session)
      → AreDirs tree root_did cs
      → IsName base
      → Started tree cs w
      → Finds base (resolve tree root_did cs) (resume (path_of cs ++ slash ∷ base) base w.0 w.1)
  resume-Finds cs base w dirs nb st =
      rw
        (
          st.start,
          st.split,
          path_of-append st.front st.back,
          append_assoc (path_of st.front) (path_of st.back) (slash ∷ base),
        )
        (resume_split st.front st.back base w.1 st.after
          (subst (AreDirs tree root_did) st.split dirs) nb)

  walk_back_some :
      (n : ℕ) (s : Session) (z : CString) (zs : List CString)
      → Ready tree s
      → AreDirs tree root_did (z ∷ zs)
      → length zs < n
      → Started tree (z ∷ zs) (walk_back n (path_of (z ∷ zs)) s)
  walk_back_some n s z zs r dirs fuel = elim (snoc_cases (z ∷ zs)) [
    | inl e ↦ absurd (omega (arith, ap length e))
    | inr (ys, y, e) ↦
        subst (λ l. Started tree l (walk_back n (path_of l) s)) (sym e)
          (subst (λ p. Started tree (ys ++ y ∷ []) (walk_back n p s)) (sym (path_of-snoc ys y))
            (walk_back-Started tree n s ys y r (subst (AreDirs tree root_did) e dirs)
              (omega (arith, ap length e, length-append ys (y ∷ [])))))
  ]

  -- Given a server that answers for its directories as they are, and a cache whose entries are right,
  -- get_dirid splits "/a/b/…/name" into the base name and the id that the walk from the root through
  -- the directories "a", "b", … gives, however much of the path the cache holds; and the entries of
  -- the cache are right afterwards.
  pub get_dirid-resolve :
      (s : Session) (cs : List CString) (base : CString)
      → Ready tree s
      → AreDirs tree root_did cs
      → IsName base
      → Finds base (resolve tree root_did cs) (get_dirid (path_of cs ++ slash ∷ base) s)
  unfolding path_of resolve
  get_dirid-resolve s [] base r dirs nb =
      rw (get_dirid_root base s nb) (record { located_at = refl; ready_after = r })
  get_dirid-resolve s (z ∷ zs) base r dirs nb =
      let parent : CString = path_of (z ∷ zs) in
      let searched = find-Ready tree s r parent in
      let n : ℕ = suc (length (parent ++ slash ∷ base)) in
      rw (get_dirid_ask (z ++ path_of zs) base s nb)
        (elim (Bool-cases ((find_dirid_by_fullname parent s).0 == 0)) [
          | inl unknown ↦ rw unknown (
              resume-Finds (z ∷ zs) base _ dirs nb (
                walk_back_some n (find_dirid_by_fullname parent s).1 z zs searched dirs
                  (omega (arith, length-append parent (slash ∷ base), length-le-path_of (z ∷ zs)))))
          | inr known ↦ rw known (record {
            located_at = ap (located base) (
                find-resolve tree s r parent (ground arith)
                ∙ ap (λ p. resolve tree root_did p.1)
                    (names-path_of (z ∷ zs) (AreDirs-All tree root_did (z ∷ zs) dirs)));
            ready_after = searched;
          })
        ])
