-- ===== src/Volume/Forks.antt =====
-- The list of the forks that are open: lib/forklist.c.
use time_capsule_mount.Prelude.{ℕ, List, [], ◌∷◌, ◌==◌, if◌then◌else◌}
use time_capsule_mount.Afp.Request.{close_fork, flush_fork}
use time_capsule_mount.Afp.Session.{OpenFork, M, get, pure, ◌>>=◌, ◌>>◌, exchange}

abbrev pub opened : (address fork : ℕ) → OpenFork
opened address fork = record { address = address; fork = fork }

unfoldable pub add_opened_fork : (address fork : ℕ) → M (Unit {0})
add_opened_fork address fork s = (tt, record s { open_forks = opened address fork ∷ s.open_forks })

-- The first node at that address is taken out.
unfoldable pub without : ℕ → List OpenFork → List OpenFork
without address [] = []
without address (p ∷ ps) =
    let rest = without address ps in if p.address == address then ps else p ∷ rest

unfoldable pub remove_opened_fork : ℕ → M (Unit {0})
remove_opened_fork address s = (tt, record s { open_forks = without address s.open_forks })

abbrev pub set_open_forks : List OpenFork → M (Unit {0})
set_open_forks ps s = (tt, record s { open_forks = ps })

-- Every fork is flushed, closed and taken out, in the order of the list.
unfoldable pub close_all : List OpenFork → M (Unit {0})
close_all [] = pure tt
close_all (p ∷ ps) = do
  r ← exchange (flush_fork p.fork)
  r' ← exchange (close_fork p.fork)
  set_open_forks ps
  close_all ps

unfoldable pub remove_fork_list : M (Unit {0})
remove_fork_list = do s ← get; close_all s.open_forks
