-- ===== src/Dsi/Buffer.antt =====
-- The incoming buffer of lib/dsi.c as memory: what a write leaves, and that the header is read from
-- the first bytes alone.
use time_capsule_mount.Prelude.{
  ℕ, zero, suc, ◌+◌, ◌≤◌, ◌<◌, ◌≡◌, refl, ap, ◌∙◌, sym, List, [], ◌∷◌, ◌++◌, arith, length, take,
  drop, get_or, length-append, length-take, length-drop, take-append,
}
use time_capsule_mount.Dsi.Wire.{read_header}
use time_capsule_mount.Dsi.Receive.{store_at}

zero_plus : (n : ℕ) → n ≡ 0 + n
zero_plus n = omega arith

suc_plus : (n m : ℕ) → suc (n + m) ≡ suc n + m
suc_plus n m = omega arith

pub take_short : (n m : ℕ) (xs : List ℕ) → n ≤ m → take n (take m xs) ≡ take n xs
take_short zero m xs h = refl
take_short (suc n) zero xs h = absurd (omega arith)
take_short (suc n) (suc m) [] h = refl
take_short (suc n) (suc m) (x ∷ xs) h = ap (◌∷◌ x) (take_short n m xs (omega arith))

pub take-take-drop : (n m : ℕ) (xs : List ℕ) → take n xs ++ take m (drop n xs) ≡ take (n + m) xs
take-take-drop zero m xs = ap (λ k. take k xs) (zero_plus m)
take-take-drop (suc n) zero [] = ap (λ k. take {A = ℕ} k []) (suc_plus n 0)
take-take-drop (suc n) (suc m) [] = ap (λ k. take {A = ℕ} k []) (suc_plus n (suc m))
take-take-drop (suc n) m (x ∷ xs) =
    ap (◌∷◌ x) (take-take-drop n m xs) ∙ ap (λ k. take k (x ∷ xs)) (suc_plus n m)

take-append_more : (xs ys : List ℕ) (n : ℕ) → take (length xs + n) (xs ++ ys) ≡ xs ++ take n ys
take-append_more [] ys n = ap (λ k. take k ys) (sym (zero_plus n))
take-append_more (x ∷ xs) ys n =
    ap (λ k. take k (x ∷ xs ++ ys)) (sym (suc_plus (length xs) n))
    ∙ ap (◌∷◌ x) (take-append_more xs ys n)

pub take-store_at :
    (buf : List ℕ) (off : ℕ) (xs : List ℕ)
    → off ≤ length buf
    → take (off + length xs) (store_at buf off xs) ≡ take off buf ++ xs
unfolding store_at
take-store_at buf off xs h =
    ap (λ n. take (n + length xs) (store_at buf off xs)) (omega (arith, length-take off buf))
    ∙ take-append_more (take off buf) (xs ++ drop (off + length xs) buf) (length xs)
    ∙ ap (◌++◌ (take off buf)) (take-append xs (drop (off + length xs) buf))

pub length-store_at :
    (buf : List ℕ) (off : ℕ) (xs : List ℕ)
    → off + length xs ≤ length buf
    → length (store_at buf off xs) ≡ length buf
unfolding store_at
length-store_at buf off xs h = omega (
  arith,
  length-append (take off buf) (xs ++ drop (off + length xs) buf),
  length-append xs (drop (off + length xs) buf),
  length-take off buf,
  length-drop (off + length xs) buf,
)

get_or-take : (n i : ℕ) (xs : List ℕ) → i < n → get_or (take n xs) i 0 ≡ get_or xs i 0
get_or-take zero i xs h = absurd (omega arith)
get_or-take (suc n) i [] h = refl
get_or-take (suc n) zero (x ∷ xs) h = refl
get_or-take (suc n) (suc i) (x ∷ xs) h = get_or-take n i xs (omega arith)

-- The header is read from the first twelve bytes.
pub read_header-take :
    (n : ℕ) (xs ys : List ℕ) → 12 ≤ n → take n xs ≡ take n ys → read_header xs ≡ read_header ys
unfolding read_header
read_header-take n xs ys h e = ground (
  arith,
  byte 0,
  byte 1,
  byte 2,
  byte 3,
  byte 4,
  byte 5,
  byte 6,
  byte 7,
  byte 8,
  byte 9,
  byte 10,
  byte 11,
)
  where
    byte : (i : ℕ) → i < 12 → get_or xs i 0 ≡ get_or ys i 0
    byte i k =
        sym (get_or-take n i xs (omega arith))
        ∙ ap (λ l. get_or l i 0) e
        ∙ get_or-take n i ys (omega arith)
