-- ===== src/Did/Freshness.antt =====
-- What find_dirid_by_fullname of lib/did.c answers, and what it does to the cache.
use time_capsule_mount.Prelude.{
  ℕ, ◌+◌, ◌≤◌, ◌≡◌, refl, true, false, none, List, [], ◌∷◌, ◌⊎◌, ◌≢◌, CString, str_eq, arith,
  length, All,
}
use mathlib.Core.List.{reverse_aux}
use time_capsule_mount.Afp.Session.{CacheEntry, DidCache}
use time_capsule_mount.Did.Cache.{is_expired, scan, find_entry, prev_is_base, prev_matches}

-- Some element has the property.
abbrev pub Exists : {A : Type 0} → (A → Type 0) → List A → Type 0
Exists P [] = ⊥
Exists P (x ∷ xs) = P x ⊎ Exists P xs

-- The entry `prev` has been compared, unless it is the base of the list.
abbrev pub Compared : CString → List CacheEntry → Type 0
Compared path [] = Unit {0}
Compared path (x ∷ []) = Unit {0}
Compared path (x ∷ y ∷ front) = str_eq x.dirname path ≡ false

abbrev pub Answers : ℕ → CString → ℕ → CacheEntry → Type 0
Answers now path did e = (str_eq e.dirname path ≡ true) × (e.did ≡ did) × (is_expired now e ≡ false)

pub not_prev_matches :
    (path : CString) (front : List CacheEntry) (did : ℕ)
    → Compared path front
    → prev_is_base front ≡ false
    → prev_matches path front did ≡ none
not_prev_matches path [] did c b = refl
not_prev_matches path (x ∷ []) did c b = ground arith
not_prev_matches path (x ∷ y ∷ front) did c b = ground arith

pub Compared-cons :
    (path : CString) (p : CacheEntry) (front : List CacheEntry)
    → str_eq p.dirname path ≡ false
    → Compared path (p ∷ front)
Compared-cons path p [] h = tt
Compared-cons path p (x ∷ front) h = h

scan-Exists :
    (now : ℕ) (path : CString) (front xs : List CacheEntry)
    → Compared path front
    → (scan now path front xs).is_hit ≡ true
    → Exists (Answers now path (scan now path front xs).found_did) xs
unfolding scan
scan-Exists now path front [] c h = ground arith
scan-Exists now path front (p ∷ []) c h = ground (arith, not_prev_matches path front p.did c)
scan-Exists now path front (p ∷ b ∷ rest) c h = ground (
  arith,
  not_prev_matches path front p.did c,
  scan-Exists now path (b ∷ []) rest tt,
  scan-Exists now path front (b ∷ rest) c,
  Compared-cons path p front,
  scan-Exists now path (p ∷ front) (b ∷ rest),
)

scan_miss :
    (now : ℕ) (path : CString) (front xs : List CacheEntry)
    → (scan now path front xs).is_hit ≡ false
    → (scan now path front xs).found_did ≡ 0
unfolding scan
scan_miss now path front [] h = refl
scan_miss now path front (p ∷ []) h = ground arith
scan_miss now path front (p ∷ b ∷ rest) h = ground (
  arith,
  scan_miss now path (b ∷ []) rest,
  scan_miss now path front (b ∷ rest),
  scan_miss now path (p ∷ front) (b ∷ rest),
)

-- When find_dirid_by_fullname answers an id, a cached entry of that name holds this id, and the entry
-- is at most `timeout` seconds old.
pub find_entry-Answers :
    (now : ℕ) (path : CString) (c : DidCache)
    → (find_entry now path c).0 ≢ 0
    → Exists (Answers now path (find_entry now path c).0) c.base
unfolding find_entry
find_entry-Answers now path c h =
    ground (arith, scan-Exists now path [] c.base tt, scan_miss now path [] c.base)

All-reverse_aux :
    (P : CacheEntry → Type 0) (xs ys : List CacheEntry)
    → All P xs
    → All P ys
    → All P (reverse_aux xs ys)
All-reverse_aux P [] ys a b = b
All-reverse_aux P (x ∷ xs) ys a b = All-reverse_aux P xs (x ∷ ys) a.1 (a.0, b)

scan-All :
    (P : CacheEntry → Type 0) (now : ℕ) (path : CString) (front xs : List CacheEntry)
    → All P front
    → All P xs
    → All P (scan now path front xs).left
unfolding scan
scan-All P now path front [] a b = All-reverse_aux P front [] a b
scan-All P now path front (p ∷ []) a b =
    ground (arith, All-reverse_aux P front [] a tt, All-reverse_aux P front (p ∷ []) a b)
scan-All P now path front (p ∷ b ∷ rest) a h = ground (
  arith,
  All-reverse_aux P front (b ∷ rest) a h.1,
  All-reverse_aux P front (p ∷ b ∷ rest) a h,
  scan-All P now path (b ∷ []) rest (h.1.0, tt) h.1.1,
  scan-All P now path front (b ∷ rest) a h.1,
  scan-All P now path (p ∷ front) (b ∷ rest) (h.0, a) h.1,
)

-- The lookup adds nothing to the cache: what holds of every entry goes on to hold.
pub find_entry-All :
    (P : CacheEntry → Type 0) (now : ℕ) (path : CString) (c : DidCache)
    → All P c.base
    → All P (find_entry now path c).1.base
unfolding find_entry
find_entry-All P now path c a = scan-All P now path [] c.base tt a

length-reverse_aux : (xs ys : List CacheEntry) → length (reverse_aux xs ys) ≡ length xs + length ys
length-reverse_aux [] ys = omega arith
length-reverse_aux (x ∷ xs) ys = omega (arith, length-reverse_aux xs (x ∷ ys))

-- No node is counted as expired twice, and none that stays is.
scan_dropped :
    (now : ℕ) (path : CString) (front xs : List CacheEntry)
    → (scan now path front xs).dropped + length (scan now path front xs).left
      ≤ length front + length xs
unfolding scan
scan_dropped now path front [] = omega (arith, length-reverse_aux front [])
scan_dropped now path front (p ∷ []) =
    ground (arith, length-reverse_aux front [], length-reverse_aux front (p ∷ []))
scan_dropped now path front (p ∷ b ∷ rest) = ground (
  arith,
  length-reverse_aux front (b ∷ rest),
  length-reverse_aux front (p ∷ b ∷ rest),
  scan_dropped now path (b ∷ []) rest,
  scan_dropped now path front (b ∷ rest),
  scan_dropped now path (p ∷ front) (b ∷ rest),
)

-- An expired entry right behind the base takes the base with it: though the base has not expired,
-- the lookup of another name leaves only entries that stood behind the two, as all that holds of these
-- holds of every entry that is left, and no more of them than there were.
pub find_entry_loses_base :
    (P : CacheEntry → Type 0) (now : ℕ) (path : CString) (c : DidCache) (p q : CacheEntry)
    (rest : List CacheEntry)
    → c.base ≡ p ∷ q ∷ rest
    → is_expired now p ≡ false
    → is_expired now q ≡ true
    → str_eq p.dirname path ≡ false
    → All P rest
    → All P (find_entry now path c).1.base × (length (find_entry now path c).1.base ≤ length rest)
unfolding find_entry scan
find_entry_loses_base P now path c p q [] e fresh old other h =
    (rw e (ground arith), rw e (ground arith))
find_entry_loses_base P now path c p q (r ∷ rest) e fresh old other (hr, h) = (
  rw e (ground (arith, scan-All P now path (r ∷ []) rest (hr, tt) h)),
  rw e (ground (arith, scan_dropped now path (r ∷ []) rest)),
)
