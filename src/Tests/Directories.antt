-- ===== src/Tests/Directories.antt =====
-- The directory cache at concrete inputs.
use time_capsule_mount.Prelude.{
  ℕ, ◌≡◌, ◌≤◌, refl, [], ◌∷◌, ◌++◌, codes, CString, arith, length, All,
}
use time_capsule_mount.Afp.Session.{CacheEntry, DidCache}
use time_capsule_mount.Did.Cache.{find_entry}
use time_capsule_mount.Did.Freshness.{find_entry_loses_base}
use time_capsule_mount.Did.Newest.{find_entry-first_fresh, first_fresh}
use time_capsule_mount.Did.Lookup.{slash, get_dirid}
use time_capsule_mount.Did.Paths.{path_of}
use time_capsule_mount.Did.Resolve.{resolve, Ready, AreDirs}
use time_capsule_mount.Did.Correct.{Finds, get_dirid-resolve}
use time_capsule_mount.Tests.{tree, directory, session}

abbrev entry : CString → ℕ → ℕ → CacheEntry
entry dirname did time = record { dirname = dirname; did = did; time = time }

abbrev cache : DidCache
cache = record {
  base = entry (codes "/a") 20 95 ∷ entry (codes "/a/b") 30 80 ∷ [];
  hits = 0;
  misses = 0;
  expired = 0;
  force_removed = 0;
}

find_entry-first_fresh_example :
    (find_entry 100 (codes "/a") cache).0 ≡ first_fresh 100 (codes "/a") cache.base
find_entry-first_fresh_example = find_entry-first_fresh 100 (codes "/a") cache (omega arith, tt)

-- Of three entries the first is fresh and the second is not; only the third stays.
abbrev three_entries : DidCache
three_entries = record cache {
  base = entry (codes "/a") 20 95 ∷ entry (codes "/a/b") 30 80 ∷ entry (codes "/d") 40 96 ∷ [];
}

find_entry_loses_base_example :
    All (λ e. e.did ≡ 40) (find_entry 100 (codes "/c") three_entries).1.base
    × (length (find_entry 100 (codes "/c") three_entries).1.base ≤ 1)
find_entry_loses_base_example =
    find_entry_loses_base (λ e. e.did ≡ 40) 100 (codes "/c") three_entries
      (entry (codes "/a") 20 95) (entry (codes "/a/b") 30 80) (entry (codes "/d") 40 96 ∷ []) refl
      refl refl refl (refl, tt)

session-Ready : Ready tree session
session-Ready = record {
  serves = λ sent did name h. (directory (tree did name), ground arith, refl, refl);
  coherent = tt;
}

ab-AreDirs : AreDirs tree 2 (codes "a" ∷ codes "b" ∷ [])
ab-AreDirs = ((refl, tt), (λ e. omega (arith, e)), ((refl, tt), (λ e. omega (arith, e)), tt))

get_dirid-resolve_example :
    Finds tree
      (codes "f")
      (resolve tree 2 (codes "a" ∷ codes "b" ∷ []))
      (get_dirid (path_of (codes "a" ∷ codes "b" ∷ []) ++ slash ∷ codes "f") session)
get_dirid-resolve_example =
    get_dirid-resolve tree session (codes "a" ∷ codes "b" ∷ []) (codes "f") session-Ready ab-AreDirs
      (refl, tt)
