-- ===== src/Loop/Ending.antt =====
-- How afp_main_loop of lib/loop.c comes to an end: the rounds, the signal handler and the ending
-- threads as steps of one system, in any order.
use time_capsule_mount.Prelude.{
  ℕ, ◌-◌, ◌<◌, ◌≡◌, ◌≢◌, refl, Bool, true, false, List, [], ◌∷◌, ◌==◌, arith, Bool-cases, inl, inr,
}
use time_capsule_mount.Dsi.Receive.{Read, dsi_recv}
use time_capsule_mount.Loop.Rounds.{
  Server, Loop, Signal, trigger_exit, termination_handler, just_end_it_now, serve, after_recv,
  has_closed, process_server_fds, Wake, Next, make_ending_thread, woken, round,
}
use time_capsule_mount.Loop.Service.{EndsAlike, Kept-EndsAlike, after_recv-Kept}

-- A step. The handler runs in the main thread between two instructions of a round, and is taken to run
-- between two rounds.
pub data Step (l : Loop) : Loop → Type 0 where
  wake : (w : Wake) {l' : Loop} → round w l ≡ Next.goes_on l' → Step l l'
  signal : (s : Signal) → Step l (termination_handler s l)
  end_thread :
      0 < l.ending_threads
      → Step l (just_end_it_now (record l { ending_threads = l.ending_threads - 1 }))

pub data Steps (l : Loop) : Loop → Type 0 where
  here : Steps l l
  next : {l' l'' : Loop} → Steps l l' → Step l' l'' → Steps l l''

serve-exit :
    (set : ℕ → Bool) (read : Read) (ss : List Server) (l : Loop)
    → EndsAlike l (serve set read ss l).2
unfolding serve
serve-exit set read [] l = (refl, refl, refl)
serve-exit set read (s ∷ ss) l =
    let r = dsi_recv read s.link in
    let s' = record s { link = r.1 } in
    let served = after_recv r.0 (has_closed s.link r.1) s' l in
    elim (Bool-cases (set s.fd)) [
      | inl e ↦
          rw (e, serve)
            (Kept-EndsAlike s' served.1 l served.2
              (after_recv-Kept r.0 (has_closed s.link r.1) s' l))
      | inr e ↦ rw (e, serve) (serve-exit set read ss l)
    ]

round-exit :
    (w : Wake) (l l' : Loop)
    → round w l ≡ Next.goes_on l'
    → (l'.exit_program ≡ l.exit_program)
      × (l'.ending ≡ l.ending)
      × (l.exit_program ≡ 1 → 0 < l'.ending_threads)
      × (l.exit_program ≢ 2)
unfolding round woken make_ending_thread process_server_fds
round-exit Wake.interrupted l l' e = ground arith
round-exit Wake.bad_descriptor l l' e = ground arith
round-exit Wake.other_error l l' e = ground arith
round-exit Wake.timed_out l l' e = ground arith
round-exit (Wake.ready set read) l l' e =
    let start = record (make_ending_thread l) { fderrors = 0 } in
    ground (arith, serve-exit set read start.servers start)

abbrev pub is_left : Next → Bool
is_left (Next.goes_on l) = false
is_left (Next.leaves l) = true
is_left Next.undefined = false

round-left : (w : Wake) (l : Loop) → is_left (round w l) ≡ (l.exit_program == 2)
unfolding round woken
round-left Wake.interrupted l = ground arith
round-left Wake.bad_descriptor l = ground arith
round-left Wake.other_error l = ground arith
round-left Wake.timed_out l = ground arith
round-left (Wake.ready set read) l = ground arith

-- While no ending thread has run, a SIGTERM ends the loop however pselect wakes up: the round after
-- it makes an ending thread if it goes on, and when one has run the next round leaves the loop.
pub termination_handler-leaves :
    (w v : Wake) (l l' : Loop)
    → l.ending ≡ false
    → round w (termination_handler Signal.sigterm l) ≡ Next.goes_on l'
    → (0 < l'.ending_threads)
      × (is_left (round v (just_end_it_now (record l' { ending_threads = l'.ending_threads - 1 })))
          ≡ true)
unfolding termination_handler trigger_exit just_end_it_now
termination_handler-leaves w v l l' h e =
    let r = round-exit w (termination_handler Signal.sigterm l) l' e in
    let l'' = record l' { ending_threads = l'.ending_threads - 1 } in
    (r.2 refl, ground (arith, r.1, round-left v (just_end_it_now l'')))

Step-lost :
    {l l' : Loop}
    → Step l l'
    → (l.ending ≡ true) × (l.exit_program ≢ 2)
    → (l'.ending ≡ true) × (l'.exit_program ≢ 2)
unfolding termination_handler trigger_exit just_end_it_now
Step-lost {l} (wake w {l'} e) h = ground (arith, round-exit w l l' e)
Step-lost (signal Signal.sigint) h = ground arith
Step-lost (signal Signal.sigterm) h = ground arith
Step-lost (signal Signal.other) h = ground arith
Step-lost (end_thread more) h = ground arith

Steps-lost :
    {l l' : Loop}
    → Steps l l'
    → (l.ending ≡ true) × (l.exit_program ≢ 2)
    → (l'.ending ≡ true) × (l'.exit_program ≢ 2)
Steps-lost here h = h
Steps-lost (next ss st) h = Step-lost st (Steps-lost ss h)

-- A termination signal that comes after the ending thread has run, and before the loop has seen that,
-- is lost with the ending: whatever steps follow, no round ever leaves the loop.
pub termination_handler-never_leaves :
    (l l' : Loop)
    → l.ending ≡ true
    → Steps (termination_handler Signal.sigterm l) l'
    → (w : Wake) → is_left (round w l') ≡ false
unfolding termination_handler trigger_exit
termination_handler-never_leaves l l' h ss w =
    let r = Steps-lost ss (h, ground arith) in ground (arith, r.1, round-left w l')
