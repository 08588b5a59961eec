-- ===== src/Server/Adding.antt =====
-- add_server of lib/afp.c: a new server goes in front of the list; afp_server_reconnect adds a server
-- that stands in the list, and makes a circle of it.
use time_capsule_mount.Prelude.{
  ℕ, zero, suc, ◌≡◌, refl, ap, true, false, some, List, [], ◌∷◌, inl, inr, ◌==◌, arith, Bool-cases,
}
use time_capsule_mount.Server.Registry.{
  AfpServer, Registry, Run, write, at, still_valid, server_still_valid, add_server,
}
use time_capsule_mount.Server.Chain.{has, Chain, frame, has-nonzero}

abbrev added : ℕ → AfpServer → Registry → Registry
unfolding write
added p s r = record r {
  heap = write r.heap p (some (record s { next = r.server_base }));
  server_base = p;
}

-- A server that does not stand in the list is put in front of it.
pub add_server-Chain :
    (p : ℕ) (s : AfpServer) (r : Registry) (xs : List ℕ)
    → Chain r.heap r.server_base xs
    → r.heap p ≡ some s
    → (p == 0) ≡ false
    → has p xs ≡ false
    → (r' : Registry) × (add_server p r ≡ Run.done r') × Chain r'.heap r'.server_base (p ∷ xs)
unfolding add_server at write added
add_server-Chain p s r xs c here nz new = (
  added p s r,
  ground arith,
  (
    refl,
    nz,
    new,
    record s { next = r.server_base },
    ground arith,
    frame (added p s r).heap r.heap r.server_base xs (λ a m. ground arith) c,
  ),
)

module _ (p : ℕ) (s : AfpServer) (r : Registry) (t : ℕ) (xs : List ℕ)
    (whole : Chain r.heap r.server_base xs) (member : has p xs ≡ true)
    (out : has t xs ≡ false) where
  -- From any server that stands before p, or from p itself, the search goes round.
  circle :
      (fuel q : ℕ) (ys : List ℕ)
      → Chain r.heap q ys
      → has p ys ≡ true
      → has t ys ≡ false
      → still_valid fuel t (added p s r) q ≡ Run.unfinished
  unfolding still_valid at added write
  circle zero q ys c m o = refl
  circle (suc fuel) q [] c m o = cc
  circle (suc fuel) q (y ∷ ys) (e, nz, new, u, here, c) m o = elim (Bool-cases (y == p)) [
    | inl hit ↦ ground (arith, circle fuel r.server_base xs whole member out)
    | inr miss ↦ ground (arith, circle fuel u.next ys c)
  ]

  around : (fuel : ℕ) → r.heap p ≡ some s → still_valid fuel t (added p s r) p ≡ Run.unfinished
  unfolding still_valid at added write
  around zero here = refl
  around (suc fuel) here =
      let other : (p == t) ≡ false = elim (Bool-cases (p == t)) [
        | inl same ↦ let e : p ≡ t = ground arith in absurd (cc (ap (λ a. has a xs) e))
        | inr other ↦ other
      ] in
      ground (
        arith,
        has-nonzero r.heap r.server_base p xs whole member,
        circle fuel r.server_base xs whole member out,
      )

-- Where a server is added that stands in the list already, as afp_server_reconnect does, the search for
-- any server outside the list never ends.
pub add_server-unfinished :
    (p : ℕ) (s : AfpServer) (r : Registry) (t : ℕ) (xs : List ℕ)
    → Chain r.heap r.server_base xs
    → r.heap p ≡ some s
    → has p xs ≡ true
    → has t xs ≡ false
    → (r' : Registry) × (add_server p r ≡ Run.done r')
      × ((fuel : ℕ) → server_still_valid fuel t r' ≡ Run.unfinished)
unfolding add_server at server_still_valid added write
add_server-unfinished p s r t xs c here m o =
    (added p s r, ground arith, λ fuel. around p s r t xs c m o fuel here)
