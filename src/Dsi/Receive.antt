-- ===== src/Dsi/Receive.antt =====
-- dsi_recv of lib/dsi.c: one call for each time that the socket is readable, and at most one read(2)
-- in each call. The incoming buffer is memory of `bufsize` bytes, and `data_read` counts what is in
-- it. malloc is taken to succeed.
use time_capsule_mount.Prelude.{
  ℕ, ◌+◌, ◌-◌, Bool, true, false, ◌&&◌, ◌||◌, Option, none, some, List, [], ◌∷◌, ◌++◌, ℤ, neg, pos,
  is_set, ◌==◌, ltb, leb, if◌then◌else◌, length, take, drop,
}
use Prim.Native.Nat.{min}
use time_capsule_mount.Dsi.Wire.{
  Header, header_size, read_header, ntohl_at, dsi_reply, dsi_close_session, dsi_command,
  dsi_get_status, dsi_open_session, dsi_tickle, dsi_write, dsi_attention, afp_read, afp_read_ext,
}
use time_capsule_mount.Dsi.Queue.{
  RxBuffer, DsiRequest, Queue, find_request, remove_request, set_request,
}

-- What a complete packet is handed to.
pub data Event : Type 0 where
  closed tickled : Event
  status : List ℕ → Event
  session_opened : (tx_quantum : ℕ) → Event
  replied : (subcommand : ℕ) → List ℕ → Event
  attention : List ℕ → Event

-- The part of struct afp_server that the receiver works on. `handled` is the newest first.
pub record Link : Type 0 where
  pub queue : Queue
  pub incoming_buffer : List ℕ
  pub data_read : ℕ
  pub rx_bytes : ℕ
  pub runt_packets : ℕ
  pub attention_quantum : ℕ
  pub handled : List Event

-- How a call ends: with its return value, or with undefined behaviour (a write behind the end of a
-- buffer, or a null pointer).
pub data Outcome : Type 0 where
  returned : ℤ → Outcome
  overrun null_pointer : Outcome

-- read(fd, p, n): `none` is an error, and the empty list is the end of the stream.
abbrev pub Read : Type 0
Read = ℕ → Option (List ℕ)

abbrev pub Result : Type 0
Result = Outcome × Link

abbrev pub fails : Link → Result
fails l = (returned (neg 1), l)

-- memcpy(buf + off, xs, length xs)
unfoldable pub store_at : List ℕ → ℕ → List ℕ → List ℕ
store_at buf off xs = take off buf ++ (xs ++ drop (off + length xs) buf)

-- The bytes that have arrived.
abbrev pub arrived : Link → List ℕ
arrived l = take l.data_read l.incoming_buffer

-- read(2) into the incoming buffer behind what is there, of at most `amount` bytes.
unfoldable pub read_into : Read → ℕ → Link → (Link → Result) → Result
read_into read amount l next = elim (read amount) [
  | none ↦ fails l
  | some [] ↦ fails l
  | some (x ∷ xs) ↦
      let got = x ∷ xs in
      if ltb (length l.incoming_buffer) (l.data_read + length got)
      then (overrun, l)
      else next (record l {
        incoming_buffer = store_at l.incoming_buffer l.data_read got;
        data_read = l.data_read + length got;
        rx_bytes = l.rx_bytes + length got;
      })
]

unfoldable pub handle : Event → Link → Link
handle e l = record l { handled = e ∷ l.handled }

-- The label `out`: the request is marked done for the sender that waits for it, or taken out of the
-- queue if none does.
unfoldable pub signal : Option DsiRequest → Link → Result
signal none l = (returned (pos 0), l)
signal (some r) l =
    let q = l.queue in
    if is_set r.wait
    then (
      returned (pos 0),
      record l {
        queue = record q {
          command_requests =
              set_request r.address (λ p. record p { wait = pos 0; done_waiting = true })
                q.command_requests;
        };
      },
    )
    else (returned (pos 0), record l { queue = (remove_request r.address q).1 })

-- The label `after_processing`: what lies behind the packet is to move to the front. With less than the
-- packet there the unsigned difference wraps and the copy runs off the buffer; here nothing is copied.
-- Only the reply to a read that was received too far leads to that.
unfoldable pub shift_rest : Link → Link
unfolding store_at
shift_rest l =
    let len = (read_header l.incoming_buffer).length_of_rest in
    if l.data_read == len + header_size
    then record l { data_read = 0 }
    else (let size_to_copy = l.data_read - (len + header_size) in
        record l {
          incoming_buffer =
              store_at l.incoming_buffer 0 (take size_to_copy (drop len l.incoming_buffer));
          data_read = l.data_read - size_to_copy;
        })

-- The label `process_packet`: the switch on the command, and what follows it.
unfoldable pub process_packet : Option DsiRequest → Link → Result
unfolding handle signal shift_rest ntohl_at
process_packet request l =
    let command = (read_header l.incoming_buffer).command in
    let done = λ (e : Event). signal request (shift_rest (handle e l)) in
    if command == dsi_close_session
    then done closed
    else (if command == dsi_get_status
        then done (status (arrived l))
        else (if command == dsi_open_session
            then done (session_opened (ntohl_at l.incoming_buffer (header_size + 2)))
            else (if command == dsi_tickle
                then done tickled
                else (if command == dsi_write || command == dsi_command
                    then elim request [
                      | none ↦ (null_pointer, l)
                      | some r ↦ done (replied r.subcommand (arrived l))
                    ]
                    else (if command == dsi_attention
                        then (if ltb l.attention_quantum l.data_read
                            then (overrun, l)
                            else done (attention (arrived l)))
                        else fails l)))))

-- The reply to an afpRead or afpReadExt: it is read into the buffer of the request.
unfoldable pub recv_into : Read → Header → DsiRequest → RxBuffer → Link → Result
unfolding signal process_packet store_at
recv_into read h r buf l =
    let size = length buf.filled in
    let room = buf.maxsize - size in
    let left = h.length_of_rest - size in
    let newmax = if leb size h.length_of_rest && ltb left room then left else room in
    if buf.maxsize == 0 then fails l else elim (read newmax) [
      | none ↦ fails l
      | some [] ↦ fails l
      | some (x ∷ xs) ↦
          let got = x ∷ xs in
          let q = l.queue in
          let filled = buf.filled ++ got in
          let l' = record l {
            rx_bytes = l.rx_bytes + length got;
            queue = record q {
              command_requests =
                  set_request r.address
                    (λ p. record p { other = some (record buf { filled = filled }) })
                    q.command_requests;
            };
          } in
          if h.length_of_rest == length filled
          then (if l.data_read == header_size
              then signal (some r) (record l' { data_read = 0 })
              else process_packet (some r) (record l' {
                incoming_buffer =
                    store_at l.incoming_buffer 0
                      (take (l.data_read - header_size) (drop header_size l.incoming_buffer));
                data_read = l.data_read - header_size;
              }))
          else (returned (pos 0), l')
    ]

-- Any other packet: the rest is read into the incoming buffer.
unfoldable pub recv_rest : Read → Header → Bool → Option DsiRequest → Link → Result
unfolding read_into process_packet signal shift_rest
recv_rest read h runt_packet request l =
    if l.data_read == header_size && h.length_of_rest == 0
    then process_packet request l
    else read_into read (min h.length_of_rest (length l.incoming_buffer)) l λ l'.
      if ltb l'.data_read (h.length_of_rest + header_size)
      then (returned (pos 0), l')
      else (if runt_packet then signal request (shift_rest l') else process_packet request l')

abbrev pub is_read_subcommand : ℕ → Bool
is_read_subcommand c = c == afp_read || c == afp_read_ext

-- The label `gotenough`: the whole header is there.
unfoldable pub got_header : Read → Link → Result
unfolding find_request set_request recv_into recv_rest
got_header read l =
    let h = read_header l.incoming_buffer in
    elim (find_request h.requestid l.queue.command_requests) [
      | none ↦
          let runt_packet = h.flags == dsi_reply in
          recv_rest read h runt_packet none
            (record l { runt_packets = if runt_packet then l.runt_packets + 1 else l.runt_packets })
      | some r ↦
          let q = l.queue in
          let r' = record r { return_code = h.return_code } in
          let l' = record l {
            queue = record q {
              command_requests =
                  set_request r.address (λ p. record p { return_code = h.return_code })
                    q.command_requests;
            };
          } in
          if is_read_subcommand r.subcommand
          then elim r.other [
            | none ↦ (null_pointer, l')
            | some buf ↦
                if l.data_read == header_size && h.length_of_rest == 0
                then signal (some r') (record l' { data_read = 0 })
                else recv_into read h r' buf l'
          ]
          else recv_rest read h false (some r') l'
    ]

unfoldable pub dsi_recv : Read → Link → Result
unfolding got_header read_into
dsi_recv read l =
    if ltb l.data_read header_size
    then (read_into read (header_size - l.data_read) l λ l'.
        if l'.data_read == header_size && (read_header l'.incoming_buffer).length_of_rest == 0
        then got_header read l'
        else (returned (pos 0), l'))
    else got_header read l
