-- ===== src/Loop/Descriptors.antt =====
-- The descriptors that the main loop waits for: rds and max_fd of lib/loop.c.
use time_capsule_mount.Prelude.{
  ℕ, zero, suc, ◌+◌, Bool, false, not, ◌&&◌, ◌||◌, Option, none, some, ◌==◌, ltb, if◌then◌else◌,
}

-- The fd_set `rds` by its test FD_ISSET. A descriptor is below FD_SETSIZE.
pub record Descriptors : Type 0 where
  pub rds : ℕ → Bool
  pub max_fd : ℕ

-- FD_ZERO(&rds) with the initial max_fd
abbrev pub no_descriptors : Descriptors
no_descriptors = record { rds = λ _. false; max_fd = 0 }

unfoldable pub add_fd : ℕ → Descriptors → Descriptors
add_fd fd d = record {
  rds = λ i. i == fd || d.rds i;
  max_fd = if ltb d.max_fd (fd + 1) then fd + 1 else d.max_fd;
}

-- The loop of rm_fd: the highest descriptor that is set, from this one down to 0.
unfoldable pub highest : (ℕ → Bool) → ℕ → Option ℕ
highest set zero = if set 0 then some 0 else none
highest set (suc i) = if set (suc i) then some (suc i) else highest set i

-- max_fd after that loop, and the `max_fd++` behind it.
abbrev pub raised : Option ℕ → ℕ → ℕ
raised none max_fd = max_fd + 1
raised (some i) max_fd = i + 1

unfoldable pub rm_fd : ℕ → Descriptors → Descriptors
unfolding highest
rm_fd fd d =
    let rds : ℕ → Bool = λ i. not (i == fd) && d.rds i in
    record { rds = rds; max_fd = raised (highest rds d.max_fd) d.max_fd }

-- What pselect(max_fd, &rds, ...) looks at.
abbrev pub is_selected : Descriptors → ℕ → Bool
is_selected d i = ltb i d.max_fd && d.rds i
