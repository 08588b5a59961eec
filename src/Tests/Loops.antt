-- ===== src/Tests/Loops.antt =====
-- The properties of the main loop at concrete inputs.
use time_capsule_mount.Prelude.{
  ◌<◌, ◌≡◌, refl, true, false, none, List, [], ◌∷◌, arith, replicate, ◌==◌,
}
use time_capsule_mount.Dsi.Receive.{Link, dsi_recv}
use time_capsule_mount.Loop.Descriptors.{is_selected}
use time_capsule_mount.Loop.Watched.{Call, after, is_watched, is_selected-watched}
use time_capsule_mount.Loop.Rounds.{
  ConnectState, Loop, termination_handler, just_end_it_now, Wake, Next, round,
}
use time_capsule_mount.Loop.Watching.{IsWatching, round-IsWatching}
use time_capsule_mount.Loop.Ending.{is_left, termination_handler-leaves}

abbrev calls : List Call
calls = Call.rm 7 ∷ Call.add 7 ∷ Call.add 5 ∷ []

is_selected-watched_example : is_selected (after calls) 5 ≡ true
unfolding is_watched
is_selected-watched_example = is_selected-watched calls 5

abbrev idle_link : Link
idle_link = record {
  queue = record { lastrequestid = 0; command_requests = []; requests_pending = 0 };
  incoming_buffer = replicate 64 0;
  data_read = 0;
  rx_bytes = 0;
  runt_packets = 0;
  attention_quantum = 64;
  handled = [];
}

abbrev one_server : Loop
one_server = record {
  descriptors = record { rds = λ i. i == 5; max_fd = 6 };
  servers =
      record {
        fd = 5;
        connect_state = ConnectState.connected;
        need_resume = false;
        mounts = record { volumes = []; calls = [] };
        link = idle_link;
      }
      ∷ [];
  exit_program = 0;
  ending = false;
  ending_threads = 0;
  firsttime = true;
  loop_started = true;
  fderrors = 0;
  effects = [];
}

abbrev hung_up : Wake
hung_up = Wake.ready (λ i. i == 5) (λ n. none)

abbrev without_server : Loop
unfolding round
without_server = elim (round hung_up one_server) [
  | Next.goes_on l ↦ l
  | Next.leaves l ↦ l
  | Next.undefined ↦ one_server
]

one_server-IsWatching : IsWatching one_server
one_server-IsWatching = record {
  bound = λ i h. ground arith;
  apart = ((λ _. tt), tt);
  watched = ((λ _. refl), tt);
}

-- The socket of the one server is closed by the other side.
round-IsWatching_example : IsWatching without_server
unfolding round dsi_recv
round-IsWatching_example =
    round-IsWatching hung_up one_server without_server one_server-IsWatching refl

abbrev stopping : Loop
unfolding termination_handler
stopping = record one_server { exit_program = 1; ending_threads = 1 }

termination_handler-leaves_example :
    (0 < 1)
    × (is_left (round hung_up (just_end_it_now (record stopping { ending_threads = 0 }))) ≡ true)
unfolding round termination_handler
termination_handler-leaves_example =
    termination_handler-leaves Wake.other_error hung_up one_server stopping refl refl
