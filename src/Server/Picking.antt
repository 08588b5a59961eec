-- ===== src/Server/Picking.antt =====
-- The version that pick_version of lib/afp.c picks from the names that dsi_parse_versions of lib/dsi.c has
-- read.
use Prim.Native.Nat.{min, max, ◌%◌}
use mathlib.Core.Option
use time_capsule_mount.Prelude.{
  ℕ, suc, ◌+◌, ◌≤◌, ◌<◌, ◌≡◌, refl, sym, ap, subst, ◌∙◌, Bool, true, false, some, List, [], ◌∷◌,
  ◌++◌, append_assoc, CString, codes, str_eq, if◌then◌else◌, Option, none, ◌==◌, leb, ◌⊎◌, inl, inr,
  length, take, take_all, drop, drop-append, All, arith, Bool-cases, Option-cases,
}
use time_capsule_mount.Reply.Pascal.{IsString, copy_to_pascal, copy_from_pascal-copy_to_pascal}
use time_capsule_mount.Server.Chain.{has}
use time_capsule_mount.Server.Versions.{
  AfpVersion, afp_versions, max_versions, number_of, with_known, parse_versions, dsi_parse_versions,
  pick_number, find_number, pick_version,
}

-- A name that a server may send.
abbrev pub IsName : CString → Type 0
IsName s = IsString s × (length s < 33)

unfoldable pub write_names : List CString → List ℕ
write_names [] = []
write_names (s ∷ ss) = copy_to_pascal s ++ write_names ss

-- The number of a version, by its name in the protocol.
abbrev pub version_number : CString → Option ℕ
version_number s =
    if str_eq (codes "AFPVersion 1.1") s
    then some 11
    else if str_eq (codes "AFPVersion 2.0") s
    then some 20
    else if str_eq (codes "AFPVersion 2.1") s
    then some 21
    else if str_eq (codes "AFP2.2") s
    then some 22
    else if str_eq (codes "AFPX03") s
    then some 30
    else if str_eq (codes "AFP3.1") s
    then some 31
    else if str_eq (codes "AFP3.2") s
    then some 32
    else none

-- The numbers of the names that are names of versions.
abbrev pub known : List CString → List ℕ
known [] = []
known (s ∷ ss) = elim (version_number s) [ none ↦ known ss | some n ↦ n ∷ known ss ]

number_of-version_number : (s : CString) → number_of afp_versions s ≡ version_number s
unfolding number_of
number_of-version_number s = refl

with_known-elim :
    (o : Option ℕ) (ns : List ℕ) → (elim o [ none ↦ ns | some n ↦ n ∷ ns ]) ≡ with_known o ns
with_known-elim none ns = refl
with_known-elim (some n) ns = refl

known-cons :
    (s : CString) (ss : List CString)
    → known (s ∷ ss) ≡ with_known (number_of afp_versions s) (known ss)
known-cons s ss =
    let e' = number_of-version_number s in
    ap (λ o. elim o [ none ↦ known ss | some n ↦ n ∷ known ss ]) (sym e')
    ∙ with_known-elim (number_of afp_versions s) (known ss)

pub drop-pascal :
    (s : CString) (rest : List ℕ)
    → length s < 256
    → drop (length s + 1) (copy_to_pascal s ++ rest) ≡ rest
unfolding copy_to_pascal
drop-pascal s rest h =
    let whole : length s % 256 ≡ length s = omega arith in
    let next : length s + 1 ≡ suc (length s) = omega arith in
    rw (whole, next, take_all (length s) s (omega arith)) (drop-append s rest)

parse_versions-known :
    (ss : List CString) (rest : List ℕ)
    → All IsName ss
    → parse_versions (length ss) (write_names ss ++ rest) ≡ some (known ss)
unfolding parse_versions write_names
parse_versions-known [] rest h = refl
parse_versions-known (s ∷ ss) rest h =
    let p : List ℕ = write_names ss ++ rest in
    let read =
      copy_from_pascal-copy_to_pascal s p 33 h.0.0 (omega (arith, h.0.1)) (omega (arith, h.0.1)) in
    let left = drop-pascal s p (omega (arith, h.0.1)) in
    ap (parse_versions (suc (length ss))) (append_assoc (copy_to_pascal s) (write_names ss) rest)
    ∙ rw (read, parse_versions)
        (rw (left, parse_versions-known ss rest h.1) (ap some (sym (known-cons s ss))))

dsi_parse_versions-known :
    (ss : List CString) (rest : List ℕ)
    → length ss ≤ max_versions
    → All IsName ss
    → dsi_parse_versions (length ss ∷ (write_names ss ++ rest)) ≡ some (known ss)
unfolding dsi_parse_versions
dsi_parse_versions-known ss rest l h =
    let few : min (length ss) 10 ≡ length ss = omega arith in
    rw few (parse_versions-known ss rest h)

-- The numbers of a table.
abbrev numbers : List AfpVersion → List ℕ
numbers [] = []
numbers (v ∷ vs) = v.av_number ∷ numbers vs

abbrev is_known : ℕ → Bool
is_known n = has n (numbers afp_versions)

find_number-numbers :
    (vs : List AfpVersion) (n : ℕ)
    → has n (numbers vs) ≡ true
    → (v : AfpVersion) × (find_number vs n ≡ some v) × (v.av_number ≡ n)
unfolding find_number
find_number-numbers [] n h = cc
find_number-numbers (v ∷ vs) n h = elim (Bool-cases (v.av_number == n)) [
  | inl hit ↦ (v, ground arith, ground arith)
  | inr miss ↦ let (w, found, e) = find_number-numbers vs n (ground arith) in (w, ground arith, e)
]

number_of-numbers :
    (vs : List AfpVersion) (s : CString) (n : ℕ)
    → number_of vs s ≡ some n
    → has n (numbers vs) ≡ true
unfolding number_of
number_of-numbers [] s n e = cc
number_of-numbers (v ∷ vs) s n e = ground (arith, number_of-numbers vs s n)

known-is_known : (ss : List CString) → All (λ n. is_known n ≡ true) (known ss)
known-is_known [] = tt
known-is_known (s ∷ ss) = elim (Option-cases (version_number s)) [
  | inl e ↦ rw e (known-is_known ss)
  | inr (n, e) ↦
      rw e (number_of-numbers afp_versions s n (number_of-version_number s ∙ e), known-is_known ss)
]

is_known-nonzero : (n : ℕ) → is_known n ≡ true → (n == 0) ≡ false
is_known-nonzero n h = ground arith

pick_number-found :
    (requested : ℕ) (vs : List ℕ) (highest : ℕ)
    → All (λ n. is_known n ≡ true) vs
    → has requested vs ≡ true
    → pick_number requested vs highest ≡ requested
unfolding pick_number
pick_number-found requested [] highest h m = cc
pick_number-found requested (v ∷ vs) highest h m =
    let nz = is_known-nonzero v h.0 in
    elim (Bool-cases (v == requested)) [
      | inl hit ↦ rw (nz, hit) (ground arith)
      | inr miss ↦ rw (nz, miss) (pick_number-found requested vs (max highest v) h.1 (ground arith))
    ]

-- Where the version that is asked for is not there, the highest is taken.
pick_number-highest :
    (requested : ℕ) (vs : List ℕ) (highest : ℕ)
    → All (λ n. is_known n ≡ true) vs
    → has requested vs ≡ false
    → let r = pick_number requested vs highest in
      (highest ≤ r) × All (λ v. v ≤ r) vs × ((r ≡ highest) ⊎ (has r vs ≡ true))
unfolding pick_number
pick_number-highest requested [] highest h m = (omega arith, tt, inl refl)
pick_number-highest requested (v ∷ vs) highest h m =
    let nz = is_known-nonzero v h.0 in
    let miss : (v == requested) ≡ false = ground arith in
    let r : ℕ = pick_number requested vs (max highest v) in
    let (low, all, from) = pick_number-highest requested vs (max highest v) h.1 (ground arith) in
    let step : pick_number requested (v ∷ vs) highest ≡ r = ground arith in
    subst
      (λ r. (highest ≤ r) × All (λ v. v ≤ r) (v ∷ vs) × ((r ≡ highest) ⊎ (has r (v ∷ vs) ≡ true)))
      (sym step)
      (
        omega (arith, low),
        (omega (arith, low), all),
        elim from [
          | inl e ↦ elim (Bool-cases (leb v highest)) [
            | inl low_v ↦ inl (e ∙ ground arith)
            | inr high_v ↦ inr (let e' : r ≡ v = e ∙ ground arith in ground arith)
          ]
          | inr m' ↦ inr (rw (m') (ground arith))
        ],
      )

pick_number-has :
    (requested : ℕ) (vs : List ℕ)
    → 0 < length vs
    → All (λ n. is_known n ≡ true) vs
    → has (pick_number requested vs 0) vs ≡ true
pick_number-has requested [] l h = absurd (omega arith)
pick_number-has requested (v ∷ vs) l h = elim (Bool-cases (has requested (v ∷ vs))) [
  | inl m ↦ ap (λ n. has n (v ∷ vs)) (pick_number-found requested (v ∷ vs) 0 h m) ∙ m
  | inr m ↦
      let (low, all, from) = pick_number-highest requested (v ∷ vs) 0 h m in
      elim from [ inl e ↦ absurd (ground (arith, e, all.0, is_known-nonzero v h.0)) | inr m' ↦ m' ]
]

All-has :
    (n : ℕ) (vs : List ℕ) → All (λ v. is_known v ≡ true) vs → has n vs ≡ true → is_known n ≡ true
All-has n [] h m = cc
All-has n (v ∷ vs) h m = elim (Bool-cases (n == v)) [
  | inl hit ↦ let e : n ≡ v = ground arith in rw e h.0
  | inr miss ↦ All-has n vs h.1 (ground arith)
]

known-le : (ss : List CString) → length (known ss) ≤ length ss
known-le [] = omega arith
known-le (s ∷ ss) = elim (Option-cases (version_number s)) [
  | inl e ↦ rw e (omega (arith, known-le ss))
  | inr (n, e) ↦ rw e (omega (arith, known-le ss))
]

-- For names that are at most ten, of at most 32 bytes each, of which one or more are names of versions
-- (the seven from AFPVersion 1.1 to AFP3.2), a version is picked whose name the server has sent: the one that was asked for, cut to 32, if it is among
-- them, and else the highest of them.
pub pick_version-known :
    (ss : List CString) (rest : List ℕ) (requested : ℕ)
    → length ss ≤ max_versions
    → All IsName ss
    → 0 < length (known ss)
    → (v : AfpVersion) × (Option.bind
          (dsi_parse_versions (length ss ∷ (write_names ss ++ rest)))
          (λ vs. pick_version vs requested)
        ≡ some v)
      × (has v.av_number (known ss) ≡ true)
      × (has (min requested 32) (known ss) ≡ true → v.av_number ≡ min requested 32)
      × (has (min requested 32) (known ss) ≡ false → All (λ n. n ≤ v.av_number) (known ss))
unfolding pick_version Option.bind
pick_version-known ss rest requested l h some_known =
    let vs : List ℕ = known ss in
    let req : ℕ = min requested 32 in
    let k = known-is_known ss in
    let m = pick_number-has req vs some_known k in
    let (v, found, e) =
      find_number-numbers afp_versions (pick_number req vs 0)
        (All-has (pick_number req vs 0) vs k m) in
    let all : take 10 vs ≡ vs = take_all 10 vs (omega (arith, known-le ss)) in
    (
      v,
      ap (λ o. Option.bind o (λ vs. pick_version vs requested))
            (dsi_parse_versions-known ss rest l h)
          ∙ ap (λ vs. find_number afp_versions (pick_number req vs 0)) all
          ∙ found,
      subst (λ n. has n vs ≡ true) (sym e) m,
      λ asked. e ∙ pick_number-found req vs 0 k asked,
      λ other. subst (λ n. All (λ v. v ≤ n) vs) (sym e) (pick_number-highest req vs 0 k other).1,
    )
