-- ===== src/Server/Removal.antt =====
-- afp_server_remove of lib/afp.c takes a server out of the list.
use time_capsule_mount.Prelude.{
  ℕ, zero, suc, ◌<◌, ◌≡◌, refl, sym, subst, ◌∙◌, ap, true, false, none, some, List, [], ◌∷◌, ◌++◌,
  map, pos, inl, inr, ◌==◌, if◌then◌else◌, length, arith, Bool-cases,
}
use time_capsule_mount.Server.Registry.{
  AfpServer, Registry, Run, write, at, with_woken, wake_all, afp_free_server, unlink_behind,
  afp_server_remove,
}
use time_capsule_mount.Server.Chain.{Heap, has, remove, Chain, contents, frame, has-nonzero}

-- What the heap is after the server p of a chain xs from x was freed, and the chain ys is left.
pub record Unlinked (old : Heap) (p x : ℕ) (xs ys : List ℕ) (h : Heap) : Type 0 where
  pub chain : Chain h x ys
  pub freed : h p ≡ none
  pub same : (a : ℕ) → (a == p) ≡ false → contents (h a) ≡ contents (old a)
  pub apart : (a : ℕ) → has a xs ≡ false → h a ≡ old a

module _ (old : Heap) (x : ℕ) (t : AfpServer) (p : ℕ) (s : AfpServer) (y : ℕ) (ys : List ℕ)
    (nz : (x == 0) ≡ false) (new : has x (y ∷ ys) ≡ false) (here : old x ≡ some t)
    (rest : Chain old t.next (y ∷ ys)) (at_s : old p ≡ some s) where
  -- The heap where the server p, right behind x, is unlinked and freed.
  cut : Heap
  unfolding write
  cut = write (write old x (some (record t { next = s.next }))) p none

  cut-Unlinked : p ≡ y → Unlinked old p x (x ∷ y ∷ ys) (x ∷ ys) cut
  unfolding cut write
  cut-Unlinked same_p =
      let (e, nonzero, apart, s2, at_y, c) = rest in
      let next_eq : s2.next ≡ s.next = ground arith in
      let c' : Chain old s.next ys = subst (λ n. Chain old n ys) next_eq c in
      record {
        chain = (
          refl,
          nz,
          ground arith,
          record t { next = s.next },
          ground arith,
          frame cut old s.next ys (λ a m. ground arith) c',
        );
        freed = ground arith;
        same = λ a ne. ground arith;
        apart = λ a out. ground arith;
      }

  -- The heap where a server behind y was unlinked and freed.
  linked-Unlinked :
      (zs : List ℕ) (h : Heap)
      → (x == p) ≡ false
      → has x zs ≡ false
      → Unlinked old p y (y ∷ ys) zs h
      → Unlinked old p x (x ∷ y ∷ ys) (x ∷ zs) h
  linked-Unlinked zs h ne out u =
      let (e, nonzero, apart, s2, at_y, c) = rest in
      record {
        chain = (refl, nz, out, t, u.apart x new ∙ here, subst (λ n. Chain h n zs) (sym e) u.chain);
        freed = u.freed;
        same = u.same;
        apart = λ a out'. u.apart a (ground arith);
      }

-- A round of the loop.
module _ (fuel p : ℕ) (s : AfpServer) (r : Registry) (x : ℕ) (t : AfpServer) (nz : (x == 0) ≡ false)
    (here : r.heap x ≡ some t) where
  step_hit :
      t.next ≡ p
      → unlink_behind (suc fuel) p s r x
        ≡ Run.done (
          pos 0,
          record r {
            heap = write (write r.heap x (some (record t { next = s.next }))) p none;
            disconnected = s.fd ∷ r.disconnected;
          },
        )
  unfolding unlink_behind at afp_free_server
  step_hit e = ground arith

  step_miss :
      (t.next == p) ≡ false → unlink_behind (suc fuel) p s r x ≡ unlink_behind fuel p s r t.next
  unfolding unlink_behind at
  step_miss e = ground arith

has-remove : (a p : ℕ) (xs : List ℕ) → has a xs ≡ false → has a (remove p xs) ≡ false
has-remove a p [] h = refl
has-remove a p (x ∷ xs) h = ground (arith, has-remove a p xs)

unlink_behind-Unlinked :
    (fuel p : ℕ) (s : AfpServer) (r : Registry) (x : ℕ) (xs : List ℕ)
    → Chain r.heap x (x ∷ xs)
    → (x == p) ≡ false
    → has p xs ≡ true
    → r.heap p ≡ some s
    → length (x ∷ xs) < fuel
    → (h : Heap) × (unlink_behind fuel p s r x
        ≡ Run.done (pos 0, record r { heap = h; disconnected = s.fd ∷ r.disconnected }))
      × Unlinked r.heap p x (x ∷ xs) (x ∷ remove p xs) h
unfolding cut
unlink_behind-Unlinked zero p s r x xs c ne m at_s l = absurd (omega arith)
unlink_behind-Unlinked (suc fuel) p s r x [] c ne m at_s l = cc
unlink_behind-Unlinked (suc fuel) p s r x (y ∷ ys) (e, nz, new, t, here, c) ne m at_s l =
    elim (Bool-cases (p == y)) [
      | inl hit ↦
          let same_p : p ≡ y = ground arith in
          (
            cut r.heap x t p s y ys nz new here c at_s,
            step_hit fuel p s r x t nz here (ground arith),
            rw hit (cut-Unlinked r.heap x t p s y ys nz new here c at_s same_p),
          )
      | inr miss ↦
          let c' : Chain r.heap y (y ∷ ys) = subst (λ n. Chain r.heap n (y ∷ ys)) c.0 c in
          let (h, run, u) =
            unlink_behind-Unlinked fuel p s r y ys c' (ground arith) (ground arith) at_s
              (omega arith) in
          (
            h,
            step_miss fuel p s r x t nz here (ground arith)
                ∙ ap (unlink_behind fuel p s r) c.0
                ∙ run,
            linked-Unlinked r.heap x t p s y ys nz new here c at_s _ h ne
                (has-remove x p (y ∷ ys) new) (rw miss u),
          )
    ]

-- To wake the threads of a server leaves the list as it is.
wake_all-Chain :
    (p : ℕ) (s : AfpServer) (r : Registry) (q : ℕ) (xs : List ℕ)
    → r.heap p ≡ some s
    → Chain r.heap q xs
    → Chain (wake_all p s r).heap q xs
unfolding wake_all write
wake_all-Chain p s r q [] at_s c = c
wake_all-Chain p s r q (x ∷ xs) at_s (e, nz, new, t, here, c) =
    let rest = wake_all-Chain p s r t.next xs at_s c in
    elim (Bool-cases (x == p)) [
      | inl hit ↦
          let next_eq : t.next ≡ s.next = ground arith in
          (
            e,
            nz,
            new,
            with_woken s,
            ground arith,
            subst (λ n. Chain (wake_all p s r).heap n xs) next_eq rest,
          )
      | inr miss ↦ (e, nz, new, t, ground arith, rest)
    ]

module _ (fuel p : ℕ) (s : AfpServer) (r : Registry) (here : r.heap p ≡ some s)
    (nz : (p == 0) ≡ false) where
  remove_first :
      p ≡ r.server_base
      → afp_server_remove fuel p r
        ≡ Run.done (
          pos 0,
          afp_free_server p (with_woken s) (record (wake_all p s r) { server_base = s.next }),
        )
  unfolding afp_server_remove at
  remove_first e = ground arith

  remove_later :
      (p == r.server_base) ≡ false
      → afp_server_remove fuel p r
        ≡ unlink_behind fuel p (with_woken s) (wake_all p s r) r.server_base
  unfolding afp_server_remove at
  remove_later e = ground arith

-- In a list that leads through distinct servers to null, afp_server_remove takes out a server of the
-- list, frees it and returns 0: what is left is the list less that server, each other server is as it was
-- but for its place in the list, the threads that wait for a reply to its requests are marked as done and woken,
-- and it is disconnected. More rounds than servers are enough.
pub afp_server_remove-Chain :
    (fuel p : ℕ) (s : AfpServer) (r : Registry) (xs : List ℕ)
    → Chain r.heap r.server_base xs
    → has p xs ≡ true
    → r.heap p ≡ some s
    → length xs < fuel
    → (r' : Registry) × (afp_server_remove fuel p r ≡ Run.done (pos 0, r'))
      × Chain r'.heap r'.server_base (remove p xs)
      × (r'.heap p ≡ none)
      × ((a : ℕ) → (a == p) ≡ false → contents (r'.heap a) ≡ contents (r.heap a))
      × (r'.signalled
          ≡ map (λ w. record { request = w.request; done_waiting = true }) s.command_requests
            ++ r.signalled)
      × (r'.disconnected ≡ s.fd ∷ r.disconnected)
unfolding wake_all afp_free_server write
afp_server_remove-Chain fuel p s r [] c m here l = cc
afp_server_remove-Chain fuel p s r (x ∷ xs) (e, nz, new, t, at_x, c) m here l =
    let r' : Registry = wake_all p s r in
    let p_nz = has-nonzero r.heap r.server_base p (x ∷ xs) (e, nz, new, t, at_x, c) m in
    elim (Bool-cases (p == x)) [
      | inl hit ↦
          let next_eq : t.next ≡ s.next = ground arith in
          let left : Registry =
            afp_free_server p (with_woken s) (record r' { server_base = s.next }) in
          (
            left,
            remove_first fuel p s r here p_nz (ground arith),
            rw hit (
                frame left.heap r.heap s.next xs (λ a m'. ground arith)
                  (subst (λ n. Chain r.heap n xs) next_eq c)),
            ground arith,
            λ a ne. ground arith,
            refl,
            refl,
          )
      | inr miss ↦
          let c' : Chain r'.heap x (x ∷ xs) =
            wake_all-Chain p s r x (x ∷ xs) here (refl, nz, new, t, at_x, c) in
          let (h, run, u) =
            unlink_behind-Unlinked fuel p (with_woken s) r' x xs c' (ground arith) (ground arith)
              (ground arith) l in
          (
            record r' { heap = h; disconnected = s.fd ∷ r.disconnected },
            remove_later fuel p s r here p_nz (ground arith)
                ∙ ap (unlink_behind fuel p (with_woken s) r') e
                ∙ run,
            subst (λ b. Chain h r.server_base (if b then xs else x ∷ remove p xs)) (sym miss)
                (subst (λ q. Chain h q (x ∷ remove p xs)) (sym e) u.chain),
            u.freed,
            λ a ne. u.same a ne ∙ ground arith,
            refl,
            refl,
          )
    ]
