-- ===== src/Server/Joining.antt =====
-- What afp_server_full_connect of lib/connect.c does to the list of servers: a login that succeeds adds
-- one server; after a login that fails, freed memory is read.
use time_capsule_mount.Prelude.{
  ℕ, ◌+◌, ◌<◌, ◌≡◌, refl, sym, ap, subst, ◌∙◌, Bool, true, false, Option, none, some, List, [], ◌∷◌,
  pos, is_neg, inl, inr, ◌==◌, ==_refl, if◌then◌else◌, length, str_eq, arith, Bool-cases,
  Option-cases,
}
use time_capsule_mount.Server.Registry.{
  AfpServer, Registry, Run, write, at, same_address, find_server_by_signature,
  find_server_by_address, afp_server_remove,
}
use time_capsule_mount.Server.Chain.{Heap, has, remove, Chain, contents}
use time_capsule_mount.Server.Removal.{afp_server_remove-Chain}
use time_capsule_mount.Server.Connect.{
  M, with_status, pure, ◌>>=◌, ask, change, update, Dialled, Status, Offer, Network, minus,
  afp_server_init, disconnect, something_is_mounted, accepts, afp_server_complete_connection,
  connect_error, connect_new, connect_status, afp_server_full_connect,
}
use time_capsule_mount.Server.Connecting.{
  then_run, change_lem, ask_lem, update_lem, NoServer, find_server-none, Joined, begun, added,
  signed, reached, connect_plain, connect_status_lem, added-Joined, signed-Joined,
}

none_of_contents : (o : Option AfpServer) → contents o ≡ none → o ≡ none
none_of_contents none e = refl
none_of_contents (some s) e = cc

-- A server that has just come into the list is taken out again.
remove-Joined :
    (fuel p : ℕ) (xs : List ℕ) (r r' : Registry)
    → Joined p xs r r'
    → length xs + 1 < fuel
    → (r'' : Registry) × (afp_server_remove fuel p r' ≡ Run.done (pos 0, r''))
      × Chain r''.heap r''.server_base xs
      × (r''.heap p ≡ none)
      × ((a : ℕ) → (a == p) ≡ false → contents (r''.heap a) ≡ contents (r.heap a))
remove-Joined fuel p xs r r' j l =
    let (r'', run, chain, freed, same, signalled, closed) =
      afp_server_remove-Chain fuel p j.server r' (p ∷ xs) j.chain (ground arith) j.here
        (omega arith) in
    (
      r'',
      run,
      subst (λ b. Chain r''.heap r''.server_base (if b then xs else p ∷ remove p xs)) (==_refl p)
          chain,
      freed,
      λ a ne. same a ne ∙ ap contents (j.rest a ne),
    )

abbrev signature_of : Option AfpServer → List ℕ
signature_of none = []
signature_of (some s) = s.signature

-- Whether a server has a signature does not hang on its place in the list.
NoServer-contents :
    (signature : List ℕ) (g h : Heap) (xs : List ℕ)
    → ((a : ℕ) → has a xs ≡ true → contents (g a) ≡ contents (h a))
    → NoServer (λ p s. str_eq s.signature signature) h xs
    → NoServer (λ p s. str_eq s.signature signature) g xs
NoServer-contents signature g h xs same n a s m e = elim (Option-cases (h a)) [
  | inl z ↦ cc (same a m, e, z)
  | inr (s', z) ↦
      let sigs : s.signature ≡ s'.signature =
        ap signature_of (ap contents (sym e) ∙ same a m ∙ ap contents z) in
      ap (λ b. str_eq b signature) sigs ∙ n a s' m z
]

apart : (p : ℕ) (xs : List ℕ) (a : ℕ) → has p xs ≡ false → has a xs ≡ true → (a == p) ≡ false
apart p xs a out m = elim (Bool-cases (a == p)) [
  | inl hit ↦ let e : a ≡ p = ground arith in cc (ap (λ b. has b xs) e)
  | inr miss ↦ miss
]

-- The network answers each call, and the server its status.
abbrev pub answering : ℕ × ℕ → ℕ → Status → ℕ → Offer → Network
answering address fd st fd' offer = record {
  address = some address;
  first = Dialled.dialled fd;
  status = st;
  second = Dialled.dialled fd';
  offer = offer;
}

-- A question about a server that is not there.
freed_read :
    {B : Type 0} (p : ℕ) (k : Bool → M B) (r : Registry)
    → r.heap p ≡ none
    → (ask (something_is_mounted p) >>= k) r ≡ Run.undefined
unfolding ◌>>=◌ ask something_is_mounted at
freed_read p k r e =
    let asked : something_is_mounted p r ≡ Run.undefined = ground arith in
    let ran : ask (something_is_mounted p) r ≡ Run.undefined = rw (asked, ask) refl in
    rw (ran, ◌>>=◌) refl

module _ (fuel new : ℕ) (address : ℕ × ℕ) (fd : ℕ) (st : Status) (fd' : ℕ) (offer : Offer)
    (r : Registry) where
  -- connect_new up to the login.
  connect_new_begin :
      connect_new fuel new address (answering address fd st fd' offer) r
      ≡ (afp_server_complete_connection fuel new (accepts st offer) >>= λ s. elim (s == 0) [
        | true ↦ connect_error fuel new
        | false ↦ (change (update new λ s. with_status st s) >>= λ _. pure new)
      ])
          (added new address fd' r)
  unfolding connect_new afp_server_init write
  connect_new_begin =
      then_run r (begun new address fd' r) (afp_server_init new) _ tt refl
      ∙ then_run (begun new address fd' r) (added new address fd' r) _ _ (pos 0)
          (connect_plain new address fd' r)

  connect_new_accepted :
      accepts st offer ≡ true
      → (new == 0) ≡ false
      → connect_new fuel new address (answering address fd st fd' offer) r
        ≡ Run.done (new, signed new address fd' r st)
  unfolding afp_server_complete_connection pure write
  connect_new_accepted ok nz =
      connect_new_begin
      ∙ rw (ok, afp_server_complete_connection)
          (then_run (added new address fd' r) (added new address fd' r) (pure new) _ new refl
            ∙ rw (nz) (
                then_run (added new address fd' r) (signed new address fd' r st)
                  (change (update new _)) _ tt
                  (change_lem (added new address fd' r) (signed new address fd' r st) (update new _)
                    (update_lem (added new address fd' r) new _
                      (record (reached new address fd' r) { next = r.server_base })
                      (ground arith)))))

  -- The server has been freed when connect_error asks whether anything of it is mounted.
  connect_new_refused :
      (xs : List ℕ)
      → accepts st offer ≡ false
      → Chain r.heap r.server_base xs
      → (new == 0) ≡ false
      → has new xs ≡ false
      → length xs + 1 < fuel
      → connect_new fuel new address (answering address fd st fd' offer) r ≡ Run.undefined
  unfolding afp_server_complete_connection pure connect_error
  connect_new_refused xs refused c nz out l =
      let r1 = added new address fd' r in
      let (r2, run, chain, freed, same) =
        remove-Joined fuel new xs r r1 (added-Joined new address fd' r xs c nz out) l in
      connect_new_begin
      ∙ rw (refused, afp_server_complete_connection)
          (then_run r1 r2 (afp_server_remove fuel new >>= λ ret. pure 0) _ 0
              (then_run r1 r2 (afp_server_remove fuel new) _ (pos 0) run)
            ∙ freed_read new _ r2 freed)

module _ (fuel tmp new : ℕ) (address : ℕ × ℕ) (fd : ℕ) (st : Status) (fd' : ℕ) (offer : Offer)
    (r : Registry) (xs : List ℕ) (c : Chain r.heap r.server_base xs) (nz : (tmp == 0) ≡ false)
    (out : has tmp xs ≡ false) (l : length xs + 1 < fuel)
    (unknown : NoServer (λ p s. str_eq s.signature st.signature) r.heap xs) where
  -- connect_status up to the second connection.
  connect_status_begin :
      is_neg (minus st.code) ≡ false
      → (r' : Registry) × (connect_status fuel tmp new address (answering address fd st fd' offer) r
          ≡ connect_new fuel new address (answering address fd st fd' offer) r')
        × Chain r'.heap r'.server_base xs
  unfolding connect_status afp_server_init disconnect at write find_server_by_signature
  connect_status_begin fine =
      let r0 : Registry = begun tmp address fd r in
      let r1 : Registry = signed tmp address fd r st in
      let r2 : Registry = record r1 { disconnected = fd ∷ r1.disconnected } in
      let j1 : Joined tmp xs r r1 = signed-Joined tmp address fd r xs c nz out st in
      let j : Joined tmp xs r r2 = record {
        chain = j1.chain;
        server = j1.server;
        here = j1.here;
        idle = j1.idle;
        unmounted = j1.unmounted;
        rest = j1.rest;
      } in
      let (r3, run, chain, freed, same) = remove-Joined fuel tmp xs r r2 j l in
      let none_found : NoServer (λ p s. str_eq s.signature st.signature) r3.heap xs =
        NoServer-contents st.signature r3.heap r.heap xs (λ a m. same a (apart tmp xs a out m))
          unknown in
      (
        r3,
        then_run r r0 (afp_server_init tmp) _ tt refl
            ∙ then_run r0 r1 _ _ (minus st.code) (connect_status_lem tmp address fd r st)
            ∙ rw fine (
                then_run r1 r2 (change (disconnect tmp)) _ tt
                  (change_lem r1 r2 (disconnect tmp) (ground arith))
                ∙ then_run r2 r2 (ask _) _ st.signature (ask_lem r2 _ st.signature (ground arith))
                ∙ then_run r2 r3 (afp_server_remove fuel tmp) _ (pos 0) run
                ∙ then_run r3 r3 (ask (find_server_by_signature fuel st.signature)) _ 0 (
                    ask_lem r3 (find_server_by_signature fuel st.signature) 0 (
                      find_server-none fuel (λ p s. str_eq s.signature st.signature) r3
                        r3.server_base xs chain none_found (omega arith)))),
        chain,
      )

-- Where the network answers, getstatus does not fail with a positive code, neither the address nor the
-- signature is one of a server in the list, and the login is accepted, afp_server_full_connect returns
-- the new server, which stands in front of the list as it was.
pub afp_server_full_connect-Chain :
    (fuel tmp new : ℕ) (address : ℕ × ℕ) (fd : ℕ) (st : Status) (fd' : ℕ) (offer : Offer)
    (r : Registry) (xs : List ℕ)
    → Chain r.heap r.server_base xs
    → (tmp == 0) ≡ false
    → (new == 0) ≡ false
    → has tmp xs ≡ false
    → has new xs ≡ false
    → length xs + 1 < fuel
    → NoServer (λ p s. same_address s.used_address address) r.heap xs
    → NoServer (λ p s. str_eq s.signature st.signature) r.heap xs
    → is_neg (minus st.code) ≡ false
    → accepts st offer ≡ true
    → (r' : Registry) × (afp_server_full_connect fuel tmp new (answering address fd st fd' offer) r
        ≡ Run.done (new, r'))
      × Chain r'.heap r'.server_base (new ∷ xs)
unfolding afp_server_full_connect find_server_by_address
afp_server_full_connect-Chain fuel tmp new address fd st fd' offer r xs c nz nz' out out' l fresh
      unknown fine ok =
    let (r1, run, chain) =
      connect_status_begin fuel tmp new address fd st fd' offer r xs c nz out l unknown fine in
    let absent =
      find_server-none fuel (λ p s. same_address s.used_address address) r r.server_base xs c fresh
        (omega arith) in
    (
      signed new address fd' r1 st,
      then_run r r (ask (find_server_by_address fuel address)) _ 0
            (ask_lem r (find_server_by_address fuel address) 0 absent)
          ∙ run
          ∙ connect_new_accepted fuel new address fd st fd' offer r1 ok nz',
      (signed-Joined new address fd' r1 xs chain nz' out' st).chain,
    )

-- Where the network answers, getstatus does not fail with a positive code, and neither the address nor
-- the signature is one of a server in the list, but the login is not accepted, afp_server_full_connect
-- reads the new server after it was freed.
pub afp_server_full_connect-undefined :
    (fuel tmp new : ℕ) (address : ℕ × ℕ) (fd : ℕ) (st : Status) (fd' : ℕ) (offer : Offer)
    (r : Registry) (xs : List ℕ)
    → Chain r.heap r.server_base xs
    → (tmp == 0) ≡ false
    → (new == 0) ≡ false
    → has tmp xs ≡ false
    → has new xs ≡ false
    → length xs + 1 < fuel
    → NoServer (λ p s. same_address s.used_address address) r.heap xs
    → NoServer (λ p s. str_eq s.signature st.signature) r.heap xs
    → is_neg (minus st.code) ≡ false
    → accepts st offer ≡ false
    → afp_server_full_connect fuel tmp new (answering address fd st fd' offer) r ≡ Run.undefined
unfolding afp_server_full_connect find_server_by_address
afp_server_full_connect-undefined fuel tmp new address fd st fd' offer r xs c nz nz' out out' l
      fresh unknown fine refused =
    let (r1, run, chain) =
      connect_status_begin fuel tmp new address fd st fd' offer r xs c nz out l unknown fine in
    let absent =
      find_server-none fuel (λ p s. same_address s.used_address address) r r.server_base xs c fresh
        (omega arith) in
    then_run r r (ask (find_server_by_address fuel address)) _ 0
      (ask_lem r (find_server_by_address fuel address) 0 absent)
    ∙ run
    ∙ connect_new_refused fuel new address fd st fd' offer r1 xs refused chain nz' out' l
