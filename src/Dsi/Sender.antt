-- ===== src/Dsi/Sender.antt =====
-- dsi_send of lib/dsi.c behind the queueing of the request: the sender writes the packet and waits for
-- the reply, and the receiver of the main loop signals it. The two threads and the clock take steps in
-- any order. What one does while it holds waiting_mutex is one step, and so is each test without it.
use time_capsule_mount.Prelude.{ℕ, ◌≡◌, Bool, true, false, pos, is_neg, is_set, if◌then◌else◌}
use time_capsule_mount.Dsi.Queue.{DsiRequest}

-- write(2), which fails with EPIPE or EBADF, or with another error
pub data Written : Type 0 where
  all_written broken_pipe write_failed : Written

-- What dsi_send returns.
pub data Rc : Type 0 where
  code : ℕ → Rc
  timed_out minus_one : Rc

-- Where the sender is.
pub data Pc : Type 0 where
  -- before write()
  sending : Pc
  -- before `wait < 0`, before `wait > 0`, and before `wait == 0`
  test_forever test_timed test_skip : Pc
  -- before pthread_mutex_lock, and in pthread_cond_wait or pthread_cond_timedwait
  locking : (timed : Bool) → Pc
  asleep : (timed : Bool) → Pc
  -- the labels `skip` and `out`
  skip : Pc
  out : Rc → Pc
  returned : Rc → Pc
  -- a request that is freed was read
  undefined : Pc

-- One request with its sender. `is_queued` says that it stands in the queue, and is not freed;
-- `receiver_holds` that dsi_recv has found it and not yet come to its label `out`.
pub record Sending : Type 0 where
  pub pc : Pc
  pub request : DsiRequest
  pub is_queued : Bool
  pub receiver_holds : Bool

abbrev pub start : DsiRequest → Sending
start request = record {
  pc = Pc.sending;
  request = request;
  is_queued = true;
  receiver_holds = false;
}

abbrev goes : Pc → Sending → Sending
goes pc s = record s { pc = pc }

-- A step that reads the request.
abbrev reads : Sending → Pc → Sending
reads s next = if s.is_queued then goes next s else goes Pc.undefined s

-- What the sender does next, if it does not sleep.
unfoldable pub advance : Written → Sending → Sending
advance w s =
    let r = s.request in
    elim s.pc [
      | Pc.sending ↦ elim w [
        | Written.all_written ↦ goes Pc.test_forever s
        | Written.broken_pipe ↦ goes (Pc.returned Rc.minus_one) s
        | Written.write_failed ↦ goes (Pc.out Rc.minus_one) s
      ]
      | Pc.test_forever ↦ reads s (if is_neg r.wait then Pc.locking false else Pc.test_timed)
      | Pc.test_timed ↦ reads s (if is_set r.wait then Pc.test_skip else Pc.skip)
      | Pc.test_skip ↦ reads s (if is_set r.wait then Pc.locking true else Pc.skip)
      | Pc.locking timed ↦ reads s (if r.done_waiting then Pc.skip else Pc.asleep timed)
      | Pc.asleep timed ↦ s
      | Pc.skip ↦ reads s (Pc.out (Rc.code r.return_code))
      | Pc.out rc ↦ record s { pc = Pc.returned rc; is_queued = false }
      | Pc.returned rc ↦ s
      | Pc.undefined ↦ s
    ]

-- pthread_cond_signal, or a wakeup that POSIX allows without one
unfoldable pub awakened : Sending → Sending
awakened s = elim s.pc [ Pc.asleep timed ↦ goes Pc.skip s | _ ↦ s ]

-- dsi_recv has found the request and stores the code of the reply.
unfoldable pub reply_stored : ℕ → Sending → Sending
reply_stored c s =
    let r = s.request in record s { request = record r { return_code = c }; receiver_holds = true }

-- The label `out` of dsi_recv: the sender is signalled, or the request is removed if none waits.
unfoldable pub signalled : Sending → Sending
unfolding awakened
signalled s =
    let r = s.request in
    if is_set r.wait
    then awakened (record s {
      request = record r { wait = pos 0; done_waiting = true };
      receiver_holds = false;
    })
    else record s { is_queued = false; receiver_holds = false }

pub data Step (s : Sending) : Sending → Type 0 where
  sender : (w : Written) → Step s (advance w s)
  spurious : Step s (awakened s)
  -- pthread_cond_timedwait returns ETIMEDOUT
  timeout : s.pc ≡ Pc.asleep true → Step s (goes (Pc.out Rc.timed_out) s)
  reply_found : (c : ℕ) → s.is_queued ≡ true → Step s (reply_stored c s)
  -- on a request that is not freed
  reply_signalled : s.receiver_holds ≡ true → s.is_queued ≡ true → Step s (signalled s)

pub data Reach (r : DsiRequest) : Sending → Type 0 where
  started : Reach r (start r)
  later : {s t : Sending} → Reach r s → Step s t → Reach r t
