-- ===== src/Server/Chain.antt =====
-- The list of servers of lib/afp.c as a list of addresses: where the pointers lead through distinct
-- servers to null, the operations are those of the list.
use time_capsule_mount.Prelude.{
  ℕ, zero, suc, ◌<◌, ◌≡◌, ◌∙◌, Bool, true, false, ◌||◌, Option, none, some, List, [], ◌∷◌, inl, inr,
  ◌==◌, if◌then◌else◌, length, arith, Bool-cases,
}
use time_capsule_mount.Server.Registry.{
  AfpServer, Registry, Run, at, still_valid, server_still_valid,
}

abbrev pub Heap : Type 0
Heap = ℕ → Option AfpServer

abbrev pub has : ℕ → List ℕ → Bool
has a [] = false
has a (x ∷ xs) = a == x || has a xs

abbrev pub remove : ℕ → List ℕ → List ℕ
remove a [] = []
remove a (x ∷ xs) = if a == x then xs else x ∷ remove a xs

-- From p the pointers lead through the servers xs, all of them distinct, to null.
abbrev pub Chain : Heap → ℕ → List ℕ → Type 0
Chain h p [] = p ≡ 0
Chain h p (x ∷ xs) =
    (p ≡ x)
    × ((x == 0) ≡ false)
    × (has x xs ≡ false)
    × (s : AfpServer) × (h x ≡ some s)
    × Chain h s.next xs

-- A server, less its place in the list.
abbrev pub contents : Option AfpServer → Option AfpServer
contents none = none
contents (some s) = some (record s { next = 0 })

-- A chain is kept by what does not touch its servers.
pub frame :
    (g h : Heap) (p : ℕ) (xs : List ℕ)
    → ((a : ℕ) → has a xs ≡ true → g a ≡ h a)
    → Chain h p xs
    → Chain g p xs
frame g h p [] same c = c
frame g h p (x ∷ xs) same (e, nonzero, new, s, here, c) = (
  e,
  nonzero,
  new,
  s,
  same x (ground arith) ∙ here,
  frame g h s.next xs (λ a m. same a (ground arith)) c,
)

pub has-nonzero :
    (h : Heap) (p a : ℕ) (xs : List ℕ) → Chain h p xs → has a xs ≡ true → (a == 0) ≡ false
has-nonzero h p a [] c m = cc
has-nonzero h p a (x ∷ xs) (e, nz, new, t, here, c) m = elim (Bool-cases (a == x)) [
  | inl hit ↦ ground arith
  | inr miss ↦ has-nonzero h t.next a xs c (ground arith)
]

still_valid-has :
    (fuel server : ℕ) (r : Registry) (p : ℕ) (xs : List ℕ)
    → Chain r.heap p xs
    → length xs < fuel
    → still_valid fuel server r p ≡ Run.done (has server xs)
unfolding still_valid at
still_valid-has zero server r p xs c l = absurd (omega arith)
still_valid-has (suc fuel) server r p [] c l = ground arith
still_valid-has (suc fuel) server r p (x ∷ xs) (e, nonzero, new, s, here, c) l =
    ground (arith, still_valid-has fuel server r s.next xs c)

-- server_still_valid says whether the server is in the list, and more rounds than servers are enough.
pub server_still_valid-has :
    (fuel server : ℕ) (r : Registry) (xs : List ℕ)
    → Chain r.heap r.server_base xs
    → length xs < fuel
    → server_still_valid fuel server r ≡ Run.done (has server xs)
unfolding server_still_valid
server_still_valid-has fuel server r xs c l = still_valid-has fuel server r r.server_base xs c l
