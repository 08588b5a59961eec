-- ===== src/Dsi/Waiting.antt =====
-- What the waiting of dsi_send in lib/dsi.c ensures: no signal is lost.
use time_capsule_mount.Prelude.{ℕ, zero, suc, ◌≡◌, ◌≢◌, refl, Bool, true, false, pos, is_set, arith}
use time_capsule_mount.Dsi.Queue.{DsiRequest}
use time_capsule_mount.Dsi.Sender.{
  Written, Rc, Pc, Sending, start, advance, awakened, reply_stored, signalled, Step, Reach, started,
  later,
}

abbrev is_asleep : Pc → Bool
is_asleep (Pc.asleep timed) = true
is_asleep _ = false

-- Nobody sleeps for a reply that was signalled, and nobody is to be signalled for it again.
abbrev IsAwake : Sending → Type 0
IsAwake s =
    (s.request.done_waiting ≡ true → is_asleep s.pc ≡ false)
    × (s.request.done_waiting ≡ true → is_set s.request.wait ≡ false)

Step-IsAwake : {s t : Sending} → Step s t → IsAwake s → IsAwake t
unfolding advance awakened reply_stored signalled
Step-IsAwake {s} (Step.sender w) h = ground arith
Step-IsAwake {s} Step.spurious h = ground arith
Step-IsAwake {s} (Step.timeout e) h = ground arith
Step-IsAwake {s} (Step.reply_found c q) h = ground arith
Step-IsAwake {s} (Step.reply_signalled held q) h = ground arith

Reach-IsAwake : {r : DsiRequest} {s : Sending} → r.done_waiting ≡ false → Reach r s → IsAwake s
Reach-IsAwake e started = ground arith
Reach-IsAwake e (later run st) = Step-IsAwake st (Reach-IsAwake e run)

-- The steps of the sender alone, its write() succeeding.
unfoldable pub continue : ℕ → Sending → Sending
continue zero s = s
continue (suc n) s = continue n (advance Written.all_written s)

-- What dsi_send returns from here on, once the reply is signalled.
abbrev pub result : Sending → Rc
result s = elim s.pc [ Pc.out rc ↦ rc | Pc.returned rc ↦ rc | _ ↦ Rc.code s.request.return_code ]

-- However the threads have run: once dsi_recv has signalled a request that waits in the queue, the
-- sender does not sleep, and its next six steps at most bring dsi_send to return, with the code of the
-- reply unless it had given up before.
pub signalled-returns :
    (r : DsiRequest) (s : Sending)
    → r.done_waiting ≡ false
    → Reach r s
    → s.request.done_waiting ≡ true
    → s.is_queued ≡ true
    → s.pc ≢ Pc.undefined
    → (continue 6 s).pc ≡ Pc.returned (result s)
unfolding continue advance
signalled-returns r s fresh run done queued ok = ground (arith, Reach-IsAwake fresh run)

-- A request that nobody is to wait for may be freed before dsi_send has read its code: the reply
-- comes while the sender is behind its write().
pub dont_wait-undefined :
    (r : DsiRequest) → r.wait ≡ pos 0 → (s : Sending) × Reach r s × (s.pc ≡ Pc.undefined)
unfolding advance awakened reply_stored signalled
dont_wait-undefined r e =
    let replied = signalled (reply_stored 0 (start r)) in
    let sent = advance Written.all_written replied in
    (
      advance Written.all_written sent,
      later
          (later (later (later started (Step.reply_found 0 refl)) (Step.reply_signalled refl refl))
            (Step.sender Written.all_written))
          (Step.sender Written.all_written),
      ground arith,
    )
