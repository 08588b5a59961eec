-- ===== src/Dsi/QueueLaws.antt =====
-- The request queue of lib/dsi.c: the count of pending requests, and which request a reply is for.
use time_capsule_mount.Prelude.{
  ℕ, zero, suc, ◌+◌, ◌%◌, ◌≤◌, ◌≡◌, refl, Bool, true, false, ◌||◌, Option, none, some, List, [],
  ◌∷◌, ◌++◌, ℤ, pos, neg, ◌==◌, inl, inr, if◌then◌else◌, arith, length, length-append, Option-cases,
}
use time_capsule_mount.Dsi.Queue.{
  RxBuffer, DsiRequest, Queue, next_id, add_request, find_request, queued, unlink_request,
  remove_request,
}

-- A queued request has that address, or that id.
abbrev pub has_address : ℕ → List DsiRequest → Bool
has_address a [] = false
has_address a (p ∷ ps) = (p.address == a) || has_address a ps

abbrev pub has_id : ℕ → List DsiRequest → Bool
has_id i [] = false
has_id i (p ∷ ps) = (i == p.requestid) || has_id i ps

abbrev pub Distinct : List DsiRequest → Type 0
Distinct [] = Unit {0}
Distinct (p ∷ ps) = (has_address p.address ps ≡ false) × Distinct ps

pub record IsValid (q : Queue) : Type 0 where
  pub counted : q.requests_pending ≡ length q.command_requests
  pub distinct : Distinct q.command_requests
  pub id_fits : q.lastrequestid ≤ 65535

has_address-append :
    (a : ℕ) (ps : List DsiRequest) (r : DsiRequest)
    → has_address a (ps ++ r ∷ []) ≡ (has_address a ps || (r.address == a))
has_address-append a [] r = ground arith
has_address-append a (p ∷ ps) r = ground (arith, has_address-append a ps r)

Distinct-append :
    (ps : List DsiRequest) (r : DsiRequest)
    → Distinct ps
    → has_address r.address ps ≡ false
    → Distinct (ps ++ r ∷ [])
Distinct-append [] r d n = (refl, tt)
Distinct-append (p ∷ ps) r d n =
    (ground (arith, has_address-append p.address ps r), Distinct-append ps r d.1 (ground arith))

pub next_id-IsValid : (q : Queue) → IsValid q → IsValid (next_id q)
unfolding next_id
next_id-IsValid q v = ground arith

-- Queueing a request in dsi_send keeps the queue valid, if malloc has put the request at an address
-- that no queued one has.
pub add_request-IsValid :
    (address subcommand : ℕ) (wait : ℤ) (other : Option RxBuffer) (q : Queue)
    → IsValid q
    → has_address address q.command_requests ≡ false
    → IsValid (add_request address subcommand wait other q)
unfolding add_request queued
add_request-IsValid address subcommand wait other q v fresh = record {
  counted = omega (
    arith,
    v.counted,
    length-append q.command_requests (queued address subcommand wait other q ∷ []),
  );
  distinct =
      Distinct-append q.command_requests (queued address subcommand wait other q) v.distinct fresh;
  id_fits = v.id_fits;
}

unlink-has_address :
    (a b : ℕ) (ps qs : List DsiRequest)
    → unlink_request a ps ≡ some qs
    → has_address b ps ≡ false
    → has_address b qs ≡ false
unfolding unlink_request
unlink-has_address a b [] qs e h = ground arith
unlink-has_address a b (p ∷ ps) qs e h = elim (Option-cases (unlink_request a ps)) [
  | inl n ↦ ground arith
  | inr (rs, s) ↦ ground (arith, unlink-has_address a b ps rs s)
]

unlink-Distinct :
    (a : ℕ) (ps qs : List DsiRequest)
    → unlink_request a ps ≡ some qs
    → Distinct ps
    → Distinct qs × (length ps ≡ suc (length qs)) × (has_address a qs ≡ false)
unfolding unlink_request
unlink-Distinct a [] qs e d = ground arith
unlink-Distinct a (p ∷ ps) qs e d = elim (Option-cases (unlink_request a ps)) [
  | inl n ↦ ground arith
  | inr (rs, s) ↦
      ground (arith, unlink-Distinct a ps rs s d.1, unlink-has_address a p.address ps rs s d.0)
]

-- dsi_remove_from_request_queue keeps the queue valid, whether or not it finds the request.
pub remove_request-IsValid : (a : ℕ) (q : Queue) → IsValid q → IsValid (remove_request a q).1
unfolding remove_request
remove_request-IsValid a q v = elim (Option-cases (unlink_request a q.command_requests)) [
  | inl n ↦ rw (n, remove_request) v
  | inr (qs, s) ↦
      rw (s, remove_request)
        (let u = unlink-Distinct a q.command_requests qs s v.distinct in
          record { counted = omega (arith, v.counted, u.1); distinct = u.0; id_fits = v.id_fits })
]

unlink_none : (a : ℕ) (ps : List DsiRequest) → unlink_request a ps ≡ none → has_address a ps ≡ false
unfolding unlink_request
unlink_none a [] e = refl
unlink_none a (p ∷ ps) e = ground (arith, unlink_none a ps)

unlink_some :
    (a : ℕ) (ps qs : List DsiRequest) → unlink_request a ps ≡ some qs → has_address a ps ≡ true
unfolding unlink_request
unlink_some a [] qs e = ground arith
unlink_some a (p ∷ ps) qs e = elim (Option-cases (unlink_request a ps)) [
  | inl n ↦ ground arith
  | inr (rs, s) ↦ ground (arith, unlink_some a ps rs s)
]

-- On a valid queue dsi_remove_from_request_queue returns 0 exactly for a queued request; afterwards
-- this request is no longer queued.
pub remove_request_lem :
    (a : ℕ) (q : Queue)
    → IsValid q
    → ((remove_request a q).0 ≡ (if has_address a q.command_requests then pos 0 else neg 1))
      × (has_address a (remove_request a q).1.command_requests ≡ false)
unfolding remove_request
remove_request_lem a q v = elim (Option-cases (unlink_request a q.command_requests)) [
  | inl n ↦ rw (n, remove_request) (rw (unlink_none a q.command_requests n) (refl, refl))
  | inr (qs, s) ↦
      rw (s, remove_request)
        (rw (unlink_some a q.command_requests qs s)
          (refl, (unlink-Distinct a q.command_requests qs s v.distinct).2))
]

find_request_append :
    (i : ℕ) (ps : List DsiRequest) (r : DsiRequest)
    → find_request i (ps ++ r ∷ [])
      ≡ (if has_id i ps then find_request i ps else (if i == r.requestid then some r else none))
unfolding find_request
find_request_append i [] r = ground arith
find_request_append i (p ∷ ps) r = ground (arith, find_request_append i ps r)

-- n headers in a row.
unfoldable pub next_ids : ℕ → Queue → Queue
unfolding next_id
next_ids zero q = q
next_ids (suc n) q = next_id (next_ids n q)

-- The ids go round modulo 2^16: after n more headers the last id is n further.
pub next_ids-mod :
    (n : ℕ) (q : Queue)
    → q.lastrequestid ≤ 65535
    → (next_ids n q).lastrequestid ≡ (q.lastrequestid + n) % 65536
unfolding next_ids
next_ids-mod zero q h = omega arith
next_ids-mod (suc n) q h = ground (arith, next_ids-mod n q h)

-- A reply with the id of the header just sent finds the request of this send, unless an older request
-- of the same id is still queued; and every other id finds what it found before.
pub find_request-add :
    (i address subcommand : ℕ) (wait : ℤ) (other : Option RxBuffer) (q : Queue)
    → find_request i (add_request address subcommand wait other q).command_requests ≡ (
        if has_id i q.command_requests
        then find_request i q.command_requests
        else (if i == q.lastrequestid then some (queued address subcommand wait other q) else none))
unfolding add_request queued
find_request-add i address subcommand wait other q =
    find_request_append i q.command_requests (queued address subcommand wait other q)
