-- ===== src/Volume/Tries.antt =====
-- How often ll_open of lib/lowlevel.c tries to open the file.
use time_capsule_mount.Prelude.{
  ℕ, suc, ◌≡◌, refl, sym, subst, Bool, true, false, ◌&&◌, some, CString, ℤ, is_set, ◌==ℤ◌, arith,
}
use time_capsule_mount.Afp.Codes.{object_not_found}
use time_capsule_mount.Afp.Types.{FileInfo, OpenFlags}
use time_capsule_mount.Afp.Session.{Session, M, pure, ◌>>=◌}
use time_capsule_mount.Volume.Open.{
  Opened, try_open, opened_fork, ll_open, refuses_write, open_access,
}

-- It ends with a result.
abbrev pub Ends : Opened → Type 0
Ends o = (r : ℤ × FileInfo) × (o ≡ some r)

-- The operation ends with a result in every session.
record AlwaysEnds (m : M Opened) : Type 0 where
  at : (s : Session) → Ends (m s).0

pure-AlwaysEnds : (r : ℤ × FileInfo) → AlwaysEnds (pure (some r))
unfolding pure
pure-AlwaysEnds r = record { at = λ s. (r, refl) }

bind-AlwaysEnds :
    {A : Type 0} (m : M A) (f : A → M Opened) → ((a : A) → AlwaysEnds (f a)) → AlwaysEnds (m >>= f)
unfolding ◌>>=◌
bind-AlwaysEnds m f h = record { at = λ s. (h (m s).0).at (m s).1 }

split-AlwaysEnds :
    (b : Bool) (m k : M Opened)
    → AlwaysEnds m
    → AlwaysEnds k
    → AlwaysEnds (elim b [ true ↦ m | false ↦ k ])
split-AlwaysEnds true m k hm hk = hm
split-AlwaysEnds false m k hm hk = hk

opened_fork-AlwaysEnds :
    (address : ℕ) (flags : OpenFlags) (r : ℤ × FileInfo)
    → AlwaysEnds (opened_fork address flags (some r))
unfolding opened_fork
opened_fork-AlwaysEnds address flags (code, fp) =
    split-AlwaysEnds (is_set code) _ _ (pure-AlwaysEnds (code, fp)) (
      bind-AlwaysEnds _ _ λ _.
        split-AlwaysEnds flags.o_trunc _ _ (bind-AlwaysEnds _ _ λ ret. search pure-AlwaysEnds)
          (search pure-AlwaysEnds))

unless_AlwaysEnds :
    (b : Bool) (m k : M Opened)
    → b ≡ false
    → AlwaysEnds k
    → AlwaysEnds (elim b [ true ↦ m | false ↦ k ])
unless_AlwaysEnds true m k e hk = ground arith
unless_AlwaysEnds false m k e hk = hk

try_open-AlwaysEnds :
    (n : ℕ) (path : CString) (flags : OpenFlags) (fp : FileInfo)
    → flags.o_creat ≡ false
    → AlwaysEnds (try_open (suc n) path flags fp)
unfolding try_open
try_open-AlwaysEnds n path flags fp e = bind-AlwaysEnds _ _ λ r.
    unless_AlwaysEnds ((r.0 ==ℤ object_not_found) && flags.o_creat) _ _ (ground (arith, e))
      (search pure-AlwaysEnds)

then-AlwaysEnds :
    (m : M Opened) (address : ℕ) (flags : OpenFlags)
    → AlwaysEnds m
    → AlwaysEnds (m >>= opened_fork address flags)
unfolding ◌>>=◌
then-AlwaysEnds m address flags h = record {
  at = λ s.
      let (r, e) = h.at s in
      subst (λ o. Ends (opened_fork address flags o (m s).1).0) (sym e)
        ((opened_fork-AlwaysEnds address flags r).at (m s).1);
}

-- Without O_CREAT one try is enough for ll_open to end with a result, whatever the server answers.
pub ll_open-Ends :
    (n address : ℕ) (path : CString) (flags : OpenFlags) (fp : FileInfo) (s : Session)
    → flags.o_creat ≡ false
    → Ends (ll_open (suc n) address path flags fp s).0
unfolding ll_open
ll_open-Ends n address path flags fp s e =
    (bind-AlwaysEnds _ _ λ t.
        split-AlwaysEnds (refuses_write t (open_access flags)) _ _ (search pure-AlwaysEnds) (
          bind-AlwaysEnds _ _ λ c. split-AlwaysEnds (is_set c.0) _ _ (search pure-AlwaysEnds) (
            then-AlwaysEnds (try_open (suc n) path flags c.1) address flags
              (try_open-AlwaysEnds n path flags c.1 e)))).at
      s
