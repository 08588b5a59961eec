-- ===== src/Server/Connecting.antt =====
-- What afp_server_full_connect of lib/connect.c does to the list of servers.
use time_capsule_mount.Prelude.{
  ℕ, zero, suc, ◌<◌, ◌≡◌, refl, ◌∙◌, Bool, true, false, none, some, List, [], ◌∷◌, pos, ◌==◌,
  length, replicate, arith,
}
use time_capsule_mount.Server.Registry.{
  AfpServer, Registry, Run, write, at, find_server, add_server,
}
use time_capsule_mount.Server.Chain.{Heap, has, Chain, frame}
use time_capsule_mount.Server.Connect.{
  M, with_status, pure, ◌>>=◌, ask, change, update, Dialled, Status, afp_server_connect, minus,
}

pub then_run :
    {A B : Type 0} (r r' : Registry) (m : M A) (k : A → M B) (a : A)
    → m r ≡ Run.done (a, r')
    → (m >>= k) r ≡ k a r'
unfolding ◌>>=◌
then_run r r' m k a e = rw (e, ◌>>=◌) refl

pub change_lem :
    (r r' : Registry) (f : Registry → Run Registry)
    → f r ≡ Run.done r'
    → change f r ≡ Run.done (tt, r')
unfolding change
change_lem r r' f e = rw (e, change) refl

pub ask_lem :
    {A : Type 0} (r : Registry) (f : Registry → Run A) (a : A)
    → f r ≡ Run.done a
    → ask f r ≡ Run.done (a, r)
unfolding ask
ask_lem r f a e = rw (e, ask) refl

-- No server of the list passes the test.
abbrev pub NoServer : (ℕ → AfpServer → Bool) → Heap → List ℕ → Type 0
NoServer test h xs = (a : ℕ) (s : AfpServer) → has a xs ≡ true → h a ≡ some s → test a s ≡ false

pub find_server-none :
    (fuel : ℕ) (test : ℕ → AfpServer → Bool) (r : Registry) (p : ℕ) (xs : List ℕ)
    → Chain r.heap p xs
    → NoServer test r.heap xs
    → length xs < fuel
    → find_server fuel test r p ≡ Run.done 0
unfolding find_server at
find_server-none zero test r p xs c n l = absurd (omega arith)
find_server-none (suc fuel) test r p [] c n l = ground arith
find_server-none (suc fuel) test r p (x ∷ xs) (e, nz, new, s, here, c) n l =
    let rest =
      find_server-none fuel test r s.next xs c (λ a s' m. n a s' (ground arith)) (omega arith) in
    ground (arith, rest, n x s (ground arith))

-- After the server p has come into the list xs of r, with nothing that waits and nothing mounted.
pub record Joined (p : ℕ) (xs : List ℕ) (r r' : Registry) : Type 0 where
  pub chain : Chain r'.heap r'.server_base (p ∷ xs)
  pub server : AfpServer
  pub here : r'.heap p ≡ some server
  pub idle : server.command_requests ≡ []
  pub unmounted : server.volumes ≡ []
  pub rest : (a : ℕ) → (a == p) ≡ false → r'.heap a ≡ r.heap a

abbrev pub on_heap : Registry → ℕ → AfpServer → Registry
on_heap r p s = record r { heap = write r.heap p (some s) }

pub update_lem :
    (r : Registry) (p : ℕ) (f : AfpServer → AfpServer) (s : AfpServer)
    → r.heap p ≡ some s
    → update p f r ≡ Run.done (on_heap r p (f s))
unfolding update at write
update_lem r p f s e = ground arith

add_server_lem :
    (r : Registry) (p : ℕ) (s : AfpServer)
    → r.heap p ≡ some s
    → add_server p r
      ≡ Run.done (record (on_heap r p (record s { next = r.server_base })) { server_base = p })
unfolding add_server at write
add_server_lem r p s e = ground arith

abbrev pub blank : AfpServer
blank = record {
  next = 0;
  signature = replicate 16 0;
  server_name = [];
  server_name_utf8 = [];
  fd = 0;
  used_address = none;
  volumes = [];
  command_requests = [];
}

module _ (p : ℕ) (address : ℕ × ℕ) (fd : ℕ) (r : Registry) where
  abbrev pub reached : AfpServer
  reached = record blank { fd = fd; used_address = some address }

  -- The registry after afp_server_init, after the socket was connected, after the server was added, and
  -- after the status was stored.
  abbrev pub begun : Registry
  begun = on_heap r p blank

  abbrev pub dialled_at : Registry
  dialled_at = on_heap begun p reached

  abbrev pub added : Registry
  added = record (on_heap dialled_at p (record reached { next = r.server_base })) {
    server_base = p;
  }

  abbrev pub signed : Status → Registry
  signed st = on_heap added p (with_status st (record reached { next = r.server_base }))

  connect_added :
      {B : Type 0} (k : M B)
      → (change (update p λ s. record s { fd = fd; used_address = some address }) >>= λ _.
            change (add_server p) >>= λ _. k)
          begun
        ≡ k added
  unfolding write
  connect_added k =
      then_run begun dialled_at (change (update p _)) _ tt
        (change_lem begun dialled_at (update p _) (update_lem begun p _ blank (ground arith)))
      ∙ then_run dialled_at added (change (add_server p)) (λ _. k) tt
          (change_lem dialled_at added (add_server p)
            (add_server_lem dialled_at p reached (ground arith)))

  pub connect_plain :
      afp_server_connect p address (Dialled.dialled fd) none begun ≡ Run.done (pos 0, added)
  unfolding afp_server_connect pure
  connect_plain = connect_added (pure (pos 0))

  pub connect_status_lem :
      (st : Status)
      → afp_server_connect p address (Dialled.dialled fd) (some st) begun
        ≡ Run.done (minus st.code, signed st)
  unfolding afp_server_connect pure write
  connect_status_lem st =
      connect_added (change (update p λ s. with_status st s) >>= λ _. pure (minus st.code))
      ∙ then_run added (signed st) (change (update p _)) _ tt (
          change_lem added (signed st) (update p _)
            (update_lem added p _ (record reached { next = r.server_base }) (ground arith)))

  module _ (xs : List ℕ) (c : Chain r.heap r.server_base xs) (nz : (p == 0) ≡ false)
      (new : has p xs ≡ false) where
    pub added-Joined : Joined p xs r added
    unfolding write
    added-Joined = record {
      chain = (
        refl,
        nz,
        new,
        record reached { next = r.server_base },
        ground arith,
        frame added.heap r.heap r.server_base xs (λ a m. ground arith) c,
      );
      server = record reached { next = r.server_base };
      here = ground arith;
      idle = refl;
      unmounted = refl;
      rest = λ a ne. ground arith;
    }

    pub signed-Joined : (st : Status) → Joined p xs r (signed st)
    unfolding write
    signed-Joined st = record {
      chain = (
        refl,
        nz,
        new,
        with_status st (record reached { next = r.server_base }),
        ground arith,
        frame (signed st).heap r.heap r.server_base xs (λ a m. ground arith) c,
      );
      server = with_status st (record reached { next = r.server_base });
      here = ground arith;
      idle = refl;
      unmounted = refl;
      rest = λ a ne. ground arith;
    }
