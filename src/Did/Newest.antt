-- ===== src/Did/Newest.antt =====
-- find_dirid_by_fullname of lib/did.c on entries that stand newest first.
use time_capsule_mount.Prelude.{
  ℕ, ◌≤◌, ◌≡◌, refl, true, ◌&&◌, not, List, [], ◌∷◌, inl, inr, sym, ◌∙◌, CString, str_eq,
  if◌then◌else◌, arith, All, Bool-cases,
}
use time_capsule_mount.Afp.Session.{CacheEntry, DidCache}
use time_capsule_mount.Did.Cache.{is_expired, scan, find_entry}
use time_capsule_mount.Did.Freshness.{Compared, not_prev_matches, Compared-cons}

-- The entries from the newest to the oldest, as they stand when the clock never runs back.
abbrev pub NewestFirst : List CacheEntry → Type 0
NewestFirst [] = Unit {0}
NewestFirst (x ∷ []) = Unit {0}
NewestFirst (x ∷ y ∷ xs) = (y.time ≤ x.time) × NewestFirst (y ∷ xs)

-- What the cache is to answer: the id in the first entry of that name that has not expired, or 0.
pub first_fresh : ℕ → CString → List CacheEntry → ℕ
first_fresh now path [] = 0
first_fresh now path (e ∷ es) =
    if str_eq e.dirname path && not (is_expired now e) then e.did else first_fresh now path es

first_fresh_expired :
    (now : ℕ) (path : CString) (e : CacheEntry) (es : List CacheEntry)
    → NewestFirst (e ∷ es)
    → is_expired now e ≡ true
    → first_fresh now path (e ∷ es) ≡ 0
unfolding first_fresh
first_fresh_expired now path e [] n x = ground arith
first_fresh_expired now path e (f ∷ es) n x = ground (arith, first_fresh_expired now path f es n.1)

NewestFirst-tail :
    (b : CacheEntry) (rest : List CacheEntry) → NewestFirst (b ∷ rest) → NewestFirst rest
NewestFirst-tail b [] n = tt
NewestFirst-tail b (c ∷ rest) n = n.1

scan_expired :
    (now : ℕ) (path : CString) (front : List CacheEntry) (xs : List CacheEntry)
    → Compared path front
    → All (λ e. is_expired now e ≡ true) xs
    → (scan now path front xs).found_did ≡ 0
unfolding scan
scan_expired now path front [] c h = refl
scan_expired now path front (p ∷ []) c h = ground (arith, not_prev_matches path front p.did c)
scan_expired now path front (p ∷ b ∷ rest) c h = ground (
  arith,
  not_prev_matches path front p.did c,
  scan_expired now path (b ∷ []) rest tt h.1.1,
  scan_expired now path front (b ∷ rest) c h.1,
)

All-expired :
    (now : ℕ) (e : CacheEntry) (es : List CacheEntry)
    → NewestFirst (e ∷ es)
    → is_expired now e ≡ true
    → All (λ e. is_expired now e ≡ true) es
All-expired now e [] n x = tt
All-expired now e (f ∷ es) n x =
    let old : is_expired now f ≡ true = ground arith in (old, All-expired now f es n.1 old)

scan-first_fresh :
    (now : ℕ) (path : CString) (front xs : List CacheEntry)
    → Compared path front
    → NewestFirst xs
    → (scan now path front xs).found_did ≡ first_fresh now path xs
unfolding scan first_fresh
scan-first_fresh now path front [] c n = refl
scan-first_fresh now path front (p ∷ []) c n = ground (arith, not_prev_matches path front p.did c)
scan-first_fresh now path front (p ∷ b ∷ rest) c n = elim (Bool-cases (is_expired now p)) [
  | inl old ↦
      scan_expired now path front (p ∷ b ∷ rest) c (old, All-expired now p (b ∷ rest) n old)
      ∙ sym (first_fresh_expired now path p (b ∷ rest) n old)
  | inr fresh ↦
      ground (arith, Compared-cons path p front, scan-first_fresh now path (p ∷ front) (b ∷ rest))
]

-- While the entries stand newest first, find_dirid_by_fullname answers exactly the id in the first
-- entry of that name that has not expired, and 0 if there is none, whatever the unlinking of expired
-- entries does on the way.
pub find_entry-first_fresh :
    (now : ℕ) (path : CString) (c : DidCache)
    → NewestFirst c.base
    → (find_entry now path c).0 ≡ first_fresh now path c.base
unfolding find_entry
find_entry-first_fresh now path c n = scan-first_fresh now path [] c.base tt n
