-- ===== src/Server/Registry.antt =====
-- The list of servers of lib/afp.c. A pointer is an address, and 0 the null pointer; `heap` holds the
-- structs that are allocated. The loops over the list take fuel, as the list may be a circle.
use time_capsule_mount.Prelude.{
  ℕ, zero, suc, Bool, true, false, not, ◌&&◌, ◌||◌, Option, none, some, List, ◌∷◌, map, ◌++◌,
  CString, ℤ, pos, neg, str_eq, ◌==◌, if◌then◌else◌,
}

-- A struct dsi_request that waits in the queue of a server.
pub record Waiter : Type 0 where
  pub request : ℕ
  pub done_waiting : Bool

-- The fields of struct afp_server that these functions read.
pub record AfpServer : Type 0 where
  pub next : ℕ
  pub signature : List ℕ
  pub server_name : CString
  pub server_name_utf8 : CString
  pub fd : ℕ
  -- used_address->ai_addr and the pointer behind it
  pub used_address : Option (ℕ × ℕ)
  -- the state of each volume: 0 is AFP_VOLUME_UNMOUNTED
  pub volumes : List ℕ
  pub command_requests : List Waiter

-- server_base and the memory; the requests that were signalled, as they stood then, and
-- the descriptors that loop_disconnect was called for, newest first.
pub record Registry : Type 0 where
  pub server_base : ℕ
  pub heap : ℕ → Option AfpServer
  pub signalled : List Waiter
  pub disconnected : List ℕ

-- A result; a read through a pointer to nothing; more rounds than the fuel.
pub data Run (A : Type 0) : Type 0 where
  done : A → Run A
  undefined : Run A
  unfinished : Run A

unfoldable pub write : (ℕ → Option AfpServer) → ℕ → Option AfpServer → ℕ → Option AfpServer
write heap p s a = if a == p then s else heap a

-- A test for what is at an address.
unfoldable pub at : {A : Type 0} → Registry → ℕ → (AfpServer → Run A) → Run A
at r p k = elim (r.heap p) [ none ↦ Run.undefined | some s ↦ k s ]

-- The first server from p on for which the test holds; 0 where there is none.
unfoldable pub find_server : ℕ → (ℕ → AfpServer → Bool) → Registry → ℕ → Run ℕ
unfolding at
find_server zero test r p = Run.unfinished
find_server (suc fuel) test r p = elim (p == 0) [
  | true ↦ Run.done 0
  | false ↦
      at r p λ s. elim (test p s) [ true ↦ Run.done p | false ↦ find_server fuel test r s.next ]
]

unfoldable pub still_valid : ℕ → ℕ → Registry → ℕ → Run Bool
unfolding at
still_valid zero server r p = Run.unfinished
still_valid (suc fuel) server r p = elim (p == 0) [
  | true ↦ Run.done false
  | false ↦ elim (p == server) [
    | true ↦ Run.done true
    | false ↦ at r p λ s. still_valid fuel server r s.next
  ]
]

unfoldable pub server_still_valid : ℕ → ℕ → Registry → Run Bool
unfolding still_valid
server_still_valid fuel server r = still_valid fuel server r r.server_base

unfoldable pub find_server_by_signature : ℕ → List ℕ → Registry → Run ℕ
unfolding find_server
find_server_by_signature fuel signature r =
    find_server fuel (λ p s. str_eq s.signature signature) r r.server_base

unfoldable pub find_server_by_name : ℕ → CString → Registry → Run ℕ
unfolding find_server
find_server_by_name fuel name r =
    find_server fuel (λ p s. str_eq s.server_name_utf8 name || str_eq s.server_name name) r
      r.server_base

abbrev pub same_address : Option (ℕ × ℕ) → ℕ × ℕ → Bool
same_address none address = false
same_address (some (addr, canonname)) (addr', canonname') =
    not (addr == 0) && (not (addr' == 0) && (addr == addr' && canonname == canonname'))

-- bcmp is given the addresses of the pointers: it compares the two pointers that stand there.
unfoldable pub find_server_by_address : ℕ → ℕ × ℕ → Registry → Run ℕ
unfolding find_server
find_server_by_address fuel address r =
    find_server fuel (λ p s. same_address s.used_address address) r r.server_base

unfoldable pub add_server : ℕ → Registry → Run Registry
unfolding at write
add_server newserver r = at r newserver λ s. Run.done (record r {
  heap = write r.heap newserver (some (record s { next = r.server_base }));
  server_base = newserver;
})

abbrev pub woken : Waiter → Waiter
woken w = record w { done_waiting = true }

abbrev pub with_woken : AfpServer → AfpServer
with_woken s = record s { command_requests = map woken s.command_requests }

-- The loop over command_requests: every thread that waits is woken.
unfoldable pub wake_all : ℕ → AfpServer → Registry → Registry
unfolding write
wake_all p s r = record r {
  heap = write r.heap p (some (with_woken s));
  signalled = map woken s.command_requests ++ r.signalled;
}

-- afp_free_server: the queue, the buffers and the server itself are freed.
unfoldable pub afp_free_server : ℕ → AfpServer → Registry → Registry
unfolding write
afp_free_server p s r = record r {
  heap = write r.heap p none;
  disconnected = s.fd ∷ r.disconnected;
}

-- for (s2=server_base;s2;s2=s2->next): the server before `p` is linked to the one behind it.
unfoldable pub unlink_behind : ℕ → ℕ → AfpServer → Registry → ℕ → Run (ℤ × Registry)
unfolding at write afp_free_server
unlink_behind zero p s r s2 = Run.unfinished
unlink_behind (suc fuel) p s r s2 = elim (s2 == 0) [
  | true ↦ Run.done (neg 1, r)
  | false ↦ at r s2 λ t. elim (t.next == p) [
    | true ↦ Run.done (
      pos 0,
      afp_free_server p s (record r { heap = write r.heap s2 (some (record t { next = s.next })) }),
    )
    | false ↦ unlink_behind fuel p s r t.next
  ]
]

unfoldable pub afp_server_remove : ℕ → ℕ → Registry → Run (ℤ × Registry)
unfolding at wake_all afp_free_server unlink_behind
afp_server_remove fuel p r = elim (p == 0) [
  | true ↦ Run.done (pos 0, r)
  | false ↦ at r p λ s.
      let r' = wake_all p s r in
      elim (p == r.server_base) [
        | true ↦
            Run.done (pos 0, afp_free_server p (with_woken s) (record r' { server_base = s.next }))
        | false ↦ unlink_behind fuel p (with_woken s) r' r.server_base
      ]
]
