-- ===== src/Dsi/Queue.antt =====
-- struct dsi_request and the queue `command_requests` of lib/dsi.c. Each function holds
-- request_queue_mutex while it works on the queue, so each is one step.
use time_capsule_mount.Prelude.{
  ℕ, ◌+◌, ◌-◌, Bool, false, Option, none, some, List, [], ◌∷◌, ◌++◌, ℤ, neg, pos, ◌==◌,
  if◌then◌else◌,
}
use mathlib.Core.Option

-- struct afp_rx_buffer
pub record RxBuffer : Type 0 where
  pub maxsize : ℕ
  pub filled : List ℕ

-- struct dsi_request; `address` is the pointer to it, and `other` is a receive buffer where the
-- caller gave one.
pub record DsiRequest : Type 0 where
  pub address : ℕ
  pub requestid : ℕ
  pub subcommand : ℕ
  pub wait : ℤ
  pub done_waiting : Bool
  pub return_code : ℕ
  pub other : Option RxBuffer

-- lastrequestid, command_requests and stats.requests_pending of struct afp_server
pub record Queue : Type 0 where
  pub lastrequestid : ℕ
  pub command_requests : List DsiRequest
  pub requests_pending : ℕ

-- The request id part of dsi_setup_header.
unfoldable pub next_id : Queue → Queue
next_id q = record q { lastrequestid = if q.lastrequestid == 65535 then 0 else q.lastrequestid + 1 }

-- The request that dsi_send makes, with the id of the last header.
unfoldable pub queued : (address subcommand : ℕ) → ℤ → Option RxBuffer → Queue → DsiRequest
queued address subcommand wait other q = record {
  address = address;
  requestid = q.lastrequestid;
  subcommand = subcommand;
  wait = wait;
  done_waiting = false;
  return_code = 0;
  other = other;
}

-- The first half of dsi_send: the request goes to the end of the queue.
unfoldable pub add_request : (address subcommand : ℕ) → ℤ → Option RxBuffer → Queue → Queue
unfolding queued
add_request address subcommand wait other q = record q {
  command_requests = q.command_requests ++ queued address subcommand wait other q ∷ [];
  requests_pending = q.requests_pending + 1;
}

-- dsi_find_request
unfoldable pub find_request : ℕ → List DsiRequest → Option DsiRequest
find_request request_id [] = none
find_request request_id (p ∷ ps) =
    if request_id == p.requestid then some p else find_request request_id ps

unfoldable pub unlink_request : ℕ → List DsiRequest → Option (List DsiRequest)
unlink_request toremove [] = none
unlink_request toremove (p ∷ ps) =
    if p.address == toremove then some ps else Option.map (◌∷◌ p) (unlink_request toremove ps)

-- dsi_remove_from_request_queue on a valid server: 0, or -1 for a request that is not there
unfoldable pub remove_request : ℕ → Queue → ℤ × Queue
unfolding unlink_request
remove_request toremove q = elim (unlink_request toremove q.command_requests) [
  | none ↦ (neg 1, q)
  | some ps ↦ (pos 0, record q { command_requests = ps; requests_pending = q.requests_pending - 1 })
]

-- A write through the pointer to a queued request.
unfoldable pub set_request : ℕ → (DsiRequest → DsiRequest) → List DsiRequest → List DsiRequest
set_request address f [] = []
set_request address f (p ∷ ps) =
    if p.address == address then f p ∷ ps else p ∷ set_request address f ps
