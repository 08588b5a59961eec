-- ===== src/Did/Cache.antt =====
-- The directory id cache of lib/did.c as the list that hangs on did_cache_base. The mutex is held for
-- the whole of each function, so each is one step. malloc is taken to succeed.
use time_capsule_mount.Prelude.{
  ℕ, ◌+◌, Bool, true, false, Option, none, some, List, [], ◌∷◌, CString, str_eq, ltb, if◌then◌else◌,
}
use mathlib.Core.List.{reverse_aux}
use mathlib.Core.Option
use time_capsule_mount.Afp.Session.{CacheEntry, DidCache}

-- static unsigned short timeout=10;
abbrev pub timeout : ℕ
timeout = 10

-- time.tv_sec > p->time.tv_sec + timeout
abbrev pub is_expired : ℕ → CacheEntry → Bool
is_expired now p = ltb (p.time + timeout) now

-- The list without the first entry of that name, if there is one.
unfoldable pub unlink : CString → List CacheEntry → Option (List CacheEntry)
unlink name [] = none
unlink name (d ∷ ds) =
    if str_eq d.dirname name then some ds else Option.map (◌∷◌ d) (unlink name ds)

unfoldable pub remove_entry : CString → DidCache → DidCache
unfolding unlink
remove_entry name c = elim (unlink name c.base) [
  | none ↦ c
  | some ds ↦ record c { base = ds; force_removed = c.force_removed + 1 }
]

unfoldable pub add_entry : ℕ → ℕ → CString → DidCache → DidCache
add_entry now new_did path c = record c {
  base = record { dirname = path; did = new_did; time = now } ∷ c.base;
}

-- What find_dirid_by_fullname leaves: the id found, or 0, and what it does to the cache.
pub record Found : Type 0 where
  pub found_did : ℕ
  pub is_hit : Bool
  pub left : List CacheEntry
  pub dropped : ℕ

abbrev pub hit : ℕ → List CacheEntry → Found
hit did left = record { found_did = did; is_hit = true; left = left; dropped = 0 }

abbrev pub miss : List CacheEntry → Found
miss left = record { found_did = 0; is_hit = false; left = left; dropped = 0 }

abbrev pub drop_one : Found → Found
drop_one r = record r { dropped = r.dropped + 1 }

-- prev==volume->did_cache_base: at most one entry stands before `p`.
abbrev pub prev_is_base : List CacheEntry → Bool
prev_is_base [] = true
prev_is_base (x ∷ []) = true
prev_is_base (x ∷ y ∷ front) = false

-- The name of the entry `prev`, the nearest before `p`.
abbrev pub prev_matches : CString → List CacheEntry → ℕ → Option ℕ
prev_matches path [] did = none
prev_matches path (x ∷ front) did = if str_eq x.dirname path then some x.did else none

-- The loop, at entry `p` with the entries `front` before it, nearest first. An expired `p` behind
-- at most one entry becomes unlinked by `did_cache_base=p->next`, and the `continue` that follows
-- steps over the new first entry; further down it is unlinked by `prev->next=p->next`, and the name
-- of `prev` is compared once more.
unfoldable pub scan : ℕ → CString → List CacheEntry → List CacheEntry → Found
scan now path front [] = miss (reverse_aux front [])
scan now path front (p ∷ []) = elim (is_expired now p) [
  | true ↦ elim (prev_is_base front) [
    | true ↦ drop_one (miss [])
    | false ↦ drop_one (elim (prev_matches path front p.did) [
      | some did ↦ hit did (reverse_aux front [])
      | none ↦ miss (reverse_aux front [])
    ])
  ]
  | false ↦
      if str_eq p.dirname path
      then hit p.did (reverse_aux front (p ∷ []))
      else miss (reverse_aux front (p ∷ []))
]
scan now path front (p ∷ b ∷ rest) = elim (is_expired now p) [
  | true ↦ elim (prev_is_base front) [
    | true ↦ drop_one (elim (str_eq p.dirname path) [
      | true ↦ miss (b ∷ rest)
      | false ↦ scan now path (b ∷ []) rest
    ])
    | false ↦ drop_one (elim (prev_matches path front p.did) [
      | some did ↦ hit did (reverse_aux front (b ∷ rest))
      | none ↦ scan now path front (b ∷ rest)
    ])
  ]
  | false ↦ elim (str_eq p.dirname path) [
    | true ↦ hit p.did (reverse_aux front (p ∷ b ∷ rest))
    | false ↦ scan now path (p ∷ front) (b ∷ rest)
  ]
]

-- find_dirid_by_fullname at the time `now`
unfoldable pub find_entry : ℕ → CString → DidCache → ℕ × DidCache
unfolding scan
find_entry now path c =
    let r = scan now path [] c.base in
    (
      r.found_did,
      record c {
        base = r.left;
        expired = c.expired + r.dropped;
        hits = if r.is_hit then c.hits + 1 else c.hits;
      },
    )
