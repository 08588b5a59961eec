-- ===== src/Loop/Rounds.antt =====
-- The rounds of afp_main_loop in lib/loop.c, and the functions that end it. pselect gives how a round
-- wakes up; the reading of a socket is dsi_recv of lib/dsi.c, and the hooks of the client are listed
-- among the effects.
use time_capsule_mount.Prelude.{
  ℕ, ◌+◌, Bool, true, false, ◌&&◌, Option, none, some, ℤ, is_set, length, List, [], ◌∷◌, neg, pos,
  ◌==ℤ◌, ◌==◌, ltb, if◌then◌else◌,
}
use time_capsule_mount.Dsi.Receive.{
  Event, Link, Outcome, returned, overrun, null_pointer, Read, dsi_recv,
}
use time_capsule_mount.Server.Volumes.{Mounts, afp_unmount_all_volumes}
use time_capsule_mount.Loop.Descriptors.{Descriptors, add_fd, rm_fd}

pub data ConnectState : Type 0 where
  connected disconnected : ConnectState

-- The part of struct afp_server that the loop works on.
pub record Server : Type 0 where
  pub fd : ℕ
  pub connect_state : ConnectState
  pub need_resume : Bool
  pub mounts : Mounts
  pub link : Link

pub data Effect : Type 0 where
  -- pthread_kill(main_thread, SIGNAL_TO_USE)
  signalled_main : Effect
  closed : (fd : ℕ) → Effect
  -- libafpclient->forced_ending_hook() and libafpclient->loop_started()
  ending_hook started_hook : Effect

-- The static variables of lib/loop.c with the list of servers. `ending_threads` counts the threads
-- that were made to run just_end_it_now and have not yet. `effects` is the newest first.
pub record Loop : Type 0 where
  pub descriptors : Descriptors
  pub servers : List Server
  pub exit_program : ℕ
  pub ending : Bool
  pub ending_threads : ℕ
  pub firsttime : Bool
  pub loop_started : Bool
  pub fderrors : ℕ
  pub effects : List Effect

abbrev pub effect : Effect → Loop → Loop
effect e l = record l { effects = e ∷ l.effects }

-- The main thread runs, so its id is not null.
abbrev pub signal_main_thread : Loop → Loop
signal_main_thread = effect Effect.signalled_main

unfoldable pub trigger_exit : Loop → Loop
trigger_exit l = record l { exit_program = 1 }

pub data Signal : Type 0 where
  sigint sigterm other : Signal

unfoldable pub termination_handler : Signal → Loop → Loop
unfolding trigger_exit
termination_handler Signal.sigint l = trigger_exit l
termination_handler Signal.sigterm l = trigger_exit l
termination_handler Signal.other l = l

unfoldable pub add_fd_and_signal : ℕ → Loop → Loop
add_fd_and_signal fd l =
    let l' = signal_main_thread (record l { descriptors = add_fd fd l.descriptors }) in
    if l'.firsttime then l' else signal_main_thread (record l' { firsttime = true })

unfoldable pub rm_fd_and_signal : ℕ → Loop → Loop
rm_fd_and_signal fd l = signal_main_thread (record l { descriptors = rm_fd fd l.descriptors })

-- The body of an ending thread, taken as one step.
unfoldable pub just_end_it_now : Loop → Loop
just_end_it_now l =
    if l.ending
    then l
    else signal_main_thread
        (record (effect Effect.ending_hook (record l { ending = true })) { exit_program = 2 })

-- loop_disconnect, on the server itself and on the rest of the state
unfoldable pub loop_disconnect : Server → Loop → Server × Loop
unfolding rm_fd_and_signal
loop_disconnect s l = elim s.connect_state [
  | ConnectState.disconnected ↦ (s, l)
  | ConnectState.connected ↦ (
    record s { connect_state = ConnectState.disconnected; need_resume = true },
    effect (Effect.closed s.fd) (rm_fd_and_signal s.fd l),
  )
]

-- How process_server_fds ends: with its return value, or with undefined behaviour.
pub data Service : Type 0 where
  done : ℤ → Service
  undefined : Service

-- dsi_incoming_closesession. `none` is undefined behaviour: where afp_unmount_all_volumes has unmounted the
-- last volume it has removed the server and freed it, and loop_disconnect reads it.
unfoldable pub dsi_incoming_closesession : Server → Loop → Option (Server × Loop)
unfolding loop_disconnect
dsi_incoming_closesession s l =
    let (ret, mounts) = afp_unmount_all_volumes s.mounts in
    if is_set ret then none else some (loop_disconnect (record s { mounts = mounts }) l)

-- The call of dsi_recv has handled a DSICloseSession.
abbrev pub is_closing : List Event → Bool
is_closing (Event.closed ∷ events) = true
is_closing _ = false

abbrev pub has_closed : (before after : Link) → Bool
has_closed before after =
    ltb (length before.handled) (length after.handled) && is_closing after.handled

-- What follows dsi_recv.
unfoldable pub end_service : ℤ → Server → Loop → Service × Server × Loop
unfolding loop_disconnect
end_service ret s l =
    if ret ==ℤ neg 1
    then (let d = loop_disconnect s l in (Service.done (neg 1), d.0, d.1))
    else (Service.done (pos 1), s, l)

-- The outcome of dsi_recv, where `closing` says that it has called dsi_incoming_closesession; what else
-- it does to the server is in other fields, and is in `s`.
unfoldable pub after_recv : Outcome → (closing : Bool) → Server → Loop → Service × Server × Loop
unfolding dsi_incoming_closesession end_service
after_recv (returned ret) false s l = end_service ret s l
after_recv (returned ret) true s l = elim (dsi_incoming_closesession s l) [
  | none ↦ (Service.undefined, s, l)
  | some d ↦ end_service ret d.0 d.1
]
after_recv overrun closing s l = (Service.undefined, s, l)
after_recv null_pointer closing s l = (Service.undefined, s, l)

-- The loop over the servers in process_server_fds: how it ends, and the servers afterwards.
unfoldable pub serve : (ready : ℕ → Bool) → Read → List Server → Loop → Service × List Server × Loop
unfolding after_recv
serve ready read [] l = (Service.done (pos 0), [], l)
serve ready read (s ∷ ss) l =
    let rest = serve ready read ss l in
    let r = dsi_recv read s.link in
    let served = after_recv r.0 (has_closed s.link r.1) (record s { link = r.1 }) l in
    if ready s.fd then (served.0, served.1 ∷ ss, served.2) else (rest.0, s ∷ rest.1, rest.2)

unfoldable pub process_server_fds : (ready : ℕ → Bool) → Read → Loop → Service × Loop
unfolding serve
process_server_fds ready read l =
    let r = serve ready read l.servers l in (r.0, record r.2 { servers = r.1 })

-- How pselect returns: with an error, at the timeout, or with descriptors that are ready and what
-- can be read from the first of a server among them.
pub data Wake : Type 0 where
  interrupted bad_descriptor other_error timed_out : Wake
  ready : (ℕ → Bool) → Read → Wake

-- How a round ends.
pub data Next : Type 0 where
  goes_on : Loop → Next
  -- afp_main_loop returns -1
  leaves : Loop → Next
  -- dsi_recv, or the end of a session that it has read, ran into undefined behaviour
  undefined : Next

abbrev pub thread_made : Loop → Loop
thread_made l = record l { ending_threads = l.ending_threads + 1 }

-- deal_with_server_signals, and the same test behind pselect
unfoldable pub make_ending_thread : Loop → Loop
make_ending_thread l = if l.exit_program == 1 then thread_made l else l

-- What is behind the test for an error.
unfoldable pub woken : Wake → Loop → Next
unfolding process_server_fds make_ending_thread
woken Wake.interrupted l = Next.goes_on (make_ending_thread l)
woken Wake.bad_descriptor l =
    Next.goes_on (if ltb 100 l.fderrors then l else record l { fderrors = l.fderrors + 1 })
woken Wake.other_error l = Next.goes_on l
woken Wake.timed_out l = Next.goes_on (
    if l.loop_started
    then record l { fderrors = 0 }
    else effect Effect.started_hook (record l { fderrors = 0; loop_started = true }))
woken (Wake.ready set read) l =
    let r = process_server_fds set read (record l { fderrors = 0 }) in
    elim r.0 [ Service.done ret ↦ Next.goes_on r.1 | Service.undefined ↦ Next.undefined ]

-- One round of `while (1)`. The descriptors of the client itself are read by its hook
-- scan_extra_fds, which is not part of the library.
unfoldable pub round : Wake → Loop → Next
unfolding woken make_ending_thread
round wake l = if l.exit_program == 2 then Next.leaves l else woken wake (make_ending_thread l)
