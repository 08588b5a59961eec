-- ===== src/Tests/Packets.antt =====
-- The request queue and the receiver at concrete inputs.
use time_capsule_mount.Prelude.{
  ℕ, ◌+◌, ◌≡◌, refl, false, inl, inr, none, List, [], ◌∷◌, pos, negsuc, arith, length, replicate,
}
use time_capsule_mount.Dsi.Wire.{Header, header_size, Fits, read_header, dsi_command}
use time_capsule_mount.Dsi.Queue.{DsiRequest, Queue, find_request}
use time_capsule_mount.Dsi.QueueLaws.{IsValid}
use time_capsule_mount.Dsi.Sender.{
  Written, Rc, Pc, Sending, Reach, Step, start, advance, reply_stored, signalled, started, later,
}
use time_capsule_mount.Dsi.Waiting.{continue, signalled-returns, dont_wait-undefined}
use time_capsule_mount.Dsi.Receive.{Link}
use time_capsule_mount.Dsi.Framing.{Receiving, header}
use time_capsule_mount.Dsi.Deliver.{Splits, Asked, Delivered, deliver, deliver-Delivered}

abbrev reply_header : Header
reply_header = record {
  flags = 1;
  command = dsi_command;
  requestid = 5;
  return_code = 0;
  length_of_rest = 2;
}

reply_header-Fits : Fits reply_header
reply_header-Fits = record {
  flags = omega arith;
  command = omega arith;
  requestid = omega arith;
  return_code = omega arith;
  length_of_rest = omega arith;
}

abbrev pending : DsiRequest
pending = record {
  address = 9;
  requestid = 5;
  subcommand = 24;
  wait = pos 5;
  done_waiting = false;
  return_code = 0;
  other = none;
}

abbrev queue : Queue
queue = record { lastrequestid = 5; command_requests = pending ∷ []; requests_pending = 1 }

queue-IsValid : IsValid queue
queue-IsValid = record { counted = refl; distinct = (refl, tt); id_fits = omega arith }

abbrev packet : List ℕ
packet = 1 ∷ 2 ∷ 0 ∷ 5 ∷ 0 ∷ 0 ∷ 0 ∷ 0 ∷ 0 ∷ 0 ∷ 0 ∷ 2 ∷ 0 ∷ 0 ∷ 0 ∷ 0 ∷ 7 ∷ 8 ∷ []

abbrev link : Link
link = record {
  queue = queue;
  incoming_buffer = replicate 32 0;
  data_read = 0;
  rx_bytes = 0;
  runt_packets = 0;
  attention_quantum = 1024;
  handled = [];
}

abbrev pieces : List (List ℕ)
pieces =
    (1 ∷ 2 ∷ 0 ∷ 5 ∷ [])
    ∷ (0 ∷ 0 ∷ 0 ∷ 0 ∷ 0 ∷ 0 ∷ 0 ∷ 2 ∷ 0 ∷ 0 ∷ 0 ∷ 0 ∷ [])
    ∷ (7 ∷ [])
    ∷ (8 ∷ [])
    ∷ []

link-Receiving : Receiving packet link
link-Receiving = record { prefix = refl; below = omega arith; room = omega arith }

pieces-Splits : Splits packet 0 pieces
pieces-Splits = (
  record {
    some_byte = omega arith;
    bytes = refl;
    fits = omega arith;
    header_first = inr (omega arith);
  },
  (
    record {
      some_byte = omega arith;
      bytes = refl;
      fits = omega arith;
      header_first = inr (omega arith);
    },
    (
      record {
        some_byte = omega arith;
        bytes = refl;
        fits = omega arith;
        header_first = inl (omega arith);
      },
      (
        record {
          some_byte = omega arith;
          bytes = refl;
          fits = omega arith;
          header_first = inl (omega arith);
        },
        refl,
      ),
    ),
  ),
)

packet_whole : length packet ≡ (header packet).length_of_rest + header_size
unfolding read_header
packet_whole = refl

packet_command : (header packet).command ≡ dsi_command
unfolding read_header
packet_command = refl

link-Asked : Asked packet packet_whole packet_command 24 link
unfolding find_request read_header
link-Asked = record { request = pending; found = refl; plain = refl; waits = refl; same = refl }

deliver-Delivered_example : Delivered packet 24 link (deliver pieces link)
deliver-Delivered_example =
    deliver-Delivered packet packet_whole packet_command 24 pieces link link-Receiving pieces-Splits
      link-Asked

abbrev waiting : DsiRequest
waiting = record pending { wait = negsuc 0 }

-- The reply of a sender that waits forever comes before its test of `wait`.
abbrev answered : Sending
unfolding advance reply_stored signalled
answered = signalled (reply_stored 7 (advance Written.all_written (start waiting)))

answered-Reach : Reach waiting answered
unfolding answered
answered-Reach =
    later (later (later started (Step.sender Written.all_written)) (Step.reply_found 7 refl))
      (Step.reply_signalled refl refl)

signalled-returns_example : (continue 6 answered).pc ≡ Pc.returned (Rc.code 7)
unfolding answered
signalled-returns_example =
    signalled-returns waiting answered refl answered-Reach refl refl (λ e. cc)

dont_wait-undefined_example :
    (s : Sending) × Reach (record pending { wait = pos 0 }) s × (s.pc ≡ Pc.undefined)
dont_wait-undefined_example = dont_wait-undefined (record pending { wait = pos 0 }) refl
