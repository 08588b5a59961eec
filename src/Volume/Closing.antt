-- ===== src/Volume/Closing.antt =====
-- The list of open forks: what remove_fork_list of lib/forklist.c closes; and a test of lib/lowlevel.c.
use time_capsule_mount.Prelude.{
  ◌≡◌, refl, Bool, true, false, not, List, [], ◌∷◌, All, ◌==◌, if◌then◌else◌,
}
use Prim.Native.Nat.{bit_and, bit_or}
use time_capsule_mount.Afp.Bits.{allow_read, allow_write}
use time_capsule_mount.Afp.Types.{OpenFlags}
use time_capsule_mount.Afp.Request.{Request, close_fork, flush_fork}
use time_capsule_mount.Afp.Session.{
  Session, OpenFork, volume_is_readonly, get, pure, ◌>>=◌, exchange,
}
use time_capsule_mount.Volume.Forks.{set_open_forks, close_all, remove_fork_list}
use time_capsule_mount.Volume.Open.{refuses_write, open_access}

-- The request is among those that were sent.
pub data Sent (r : Request) : List Request → Type 0 where
  newest : {rs : List Request} → Sent r (r ∷ rs)
  before : {q : Request} {rs : List Request} → Sent r rs → Sent r (q ∷ rs)

abbrev pub Closed : List Request → OpenFork → Type 0
Closed sent p = Sent (flush_fork p.fork) sent × Sent (close_fork p.fork) sent

close_all-keeps :
    (r : Request) (ps : List OpenFork) (s : Session)
    → Sent r s.sent
    → Sent r (close_all ps s).1.sent
unfolding close_all ◌>>=◌ pure exchange
close_all-keeps r [] s h = h
close_all-keeps r (p ∷ ps) s h = close_all-keeps r ps _ (before (before h))

close_all-Closed :
    (ps : List OpenFork) (s : Session)
    → s.open_forks ≡ ps
    → let s' = (close_all ps s).1 in (s'.open_forks ≡ []) × All (Closed s'.sent) ps
unfolding close_all ◌>>=◌ pure exchange
close_all-Closed [] s e = (e, tt)
close_all-Closed (p ∷ ps) s e =
    let (none_left, all) =
      close_all-Closed ps
        (set_open_forks ps (record s { sent = close_fork p.fork ∷ flush_fork p.fork ∷ s.sent })).1
        refl in
    (
      none_left,
      (
        (
          close_all-keeps (flush_fork p.fork) ps _ (before newest),
          close_all-keeps (close_fork p.fork) ps _ newest,
        ),
        all,
      ),
    )

-- remove_fork_list leaves no fork in the list, and has flushed and closed each one that was in it.
pub remove_fork_list-Closed :
    (s : Session)
    → let s' = (remove_fork_list s).1 in (s'.open_forks ≡ []) × All (Closed s'.sent) s.open_forks
unfolding remove_fork_list ◌>>=◌ get
remove_fork_list-Closed s = close_all-Closed s.open_forks s refl

two_and_one :
    (wronly rdwr readonly : Bool)
    → not (
        bit_and
          (bit_and
            (bit_or allow_read (bit_or (if wronly then allow_write else 0) (if rdwr then 3 else 0)))
            allow_write)
          (if readonly then 1 else 0)
        == 0)
      ≡ false
two_and_one true true true = refl
two_and_one true true false = refl
two_and_one true false true = refl
two_and_one true false false = refl
two_and_one false true true = refl
two_and_one false true false = refl
two_and_one false false true = refl
two_and_one false false false = refl

-- The test of ll_open for a volume that is read only refuses nothing, for any flags: it is the bit
-- operation 2 & 1.
pub refuses_write-never :
    (s : Session) (flags : OpenFlags) → refuses_write s (open_access flags) ≡ false
unfolding refuses_write open_access
refuses_write-never s flags = two_and_one flags.o_wronly flags.o_rdwr (volume_is_readonly s)
