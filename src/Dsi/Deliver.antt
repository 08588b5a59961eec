-- ===== src/Dsi/Deliver.antt =====
-- A whole reply, in as many pieces as the network makes of it, through dsi_recv of lib/dsi.c.
use time_capsule_mount.Prelude.{
  ℕ, ◌+◌, ◌≤◌, ◌<◌, ◌≡◌, ap, ◌∙◌, sym, Bool, true, false, not, ◌&&◌, inl, inr, some, List, [], ◌∷◌,
  pos, is_set, ◌==◌, ltb, if◌then◌else◌, arith, length, take, Bool-cases, take_all, subst,
}
use time_capsule_mount.Dsi.Wire.{Header, header_size, read_header, dsi_command}
use time_capsule_mount.Dsi.Queue.{DsiRequest, find_request}
use time_capsule_mount.Dsi.Buffer.{length-store_at}
use time_capsule_mount.Dsi.Receive.{
  replied, Link, Outcome, returned, overrun, null_pointer, Result, arrived, process_packet,
  got_header, dsi_recv, is_read_subcommand,
}
use time_capsule_mount.Dsi.Framing.{
  gives, stored, noted, header, Receiving, Next, recv_part_header, recv_more, stored_prefix,
  header_known, process_reply, got_header-noted, find-set, recv_header, recv_rest-process,
}

abbrev pub is_zero : Outcome → Bool
is_zero (returned z) = not (is_set z)
is_zero overrun = false
is_zero null_pointer = false

-- The main loop calls dsi_recv whenever bytes are there, as long as it returns 0.
unfoldable pub deliver : List (List ℕ) → Link → Result
deliver [] l = (returned (pos 0), l)
deliver (xs ∷ cs) l = let r = dsi_recv (gives xs) l in if is_zero r.0 then deliver cs r.1 else r

if_true : {A : Type 0} (t : Bool) (a b : A) → t ≡ true → (if t then a else b) ≡ a
if_true t a b e = rw e

if_false : {A : Type 0} (t : Bool) (a b : A) → t ≡ false → (if t then a else b) ≡ b
if_false t a b e = rw e

module _ (packet : List ℕ) where
  -- The pieces make up the packet from that byte on.
  abbrev pub Splits : ℕ → List (List ℕ) → Type 0
  Splits at [] = at ≡ length packet
  Splits at (xs ∷ cs) = Next packet at xs × Splits (at + length xs) cs

  -- The packet was handed on once, to the handler of the request, and the buffer is empty.
  pub record Delivered (subcommand : ℕ) (l : Link) (r : Result) : Type 0 where
    pub outcome : r.0 ≡ returned (pos 0)
    pub emptied : r.1.data_read ≡ 0
    pub once : r.1.handled ≡ replied subcommand packet ∷ l.handled

  deliver_next :
      (xs : List ℕ) (cs : List (List ℕ)) (l l' : Link)
      → dsi_recv (gives xs) l ≡ (returned (pos 0), l')
      → deliver (xs ∷ cs) l ≡ deliver cs l'
  unfolding deliver
  deliver_next xs cs l l' e = rw e

  -- Nothing is left to come when the packet is complete.
  deliver_last :
      (xs : List ℕ) (cs : List (List ℕ)) (l : Link)
      → Splits (length packet) cs
      → (dsi_recv (gives xs) l).0 ≡ returned (pos 0)
      → deliver (xs ∷ cs) l ≡ dsi_recv (gives xs) l
  unfolding deliver
  deliver_last xs [] l s e = ground arith
  deliver_last xs (c ∷ cs) l s e = absurd (omega (arith, s.0.some_byte, s.0.fits))

  stored-Receiving :
      (l : Link) (xs : List ℕ)
      → Receiving packet l
      → Next packet l.data_read xs
      → l.data_read + length xs < length packet
      → Receiving packet (stored xs l)
  stored-Receiving l xs r n short = record {
    prefix = stored_prefix packet l xs r n;
    below = short;
    room = omega (arith, r.room, length-store_at l.incoming_buffer l.data_read xs);
  }

  module _ (whole : length packet ≡ (header packet).length_of_rest + header_size)
      (command : (header packet).command ≡ dsi_command) where
    complete :
        (l : Link) (q : DsiRequest)
        → arrived l ≡ take (length packet) packet
        → l.data_read ≡ length packet
        → is_set q.wait ≡ true
        → Delivered q.subcommand l (process_packet (some q) l)
    complete l q a d w =
        let known =
          header_known packet l (length packet) (omega (arith, whole))
            (ap (λ k. take k l.incoming_buffer) (sym d) ∙ a) in
        let done = process_reply q l (rw known command) (rw (known, d) whole) w in
        record {
          outcome = done.0;
          emptied = done.1;
          once =
              done.2
              ∙ ap (λ p. replied q.subcommand p ∷ l.handled)
                  (a ∙ take_all (length packet) packet (omega arith));
        }

    -- The last bytes of the packet.
    module _ (l : Link) (x : ℕ) (xs : List ℕ) (q : DsiRequest) (r : Receiving packet l)
        (n : Next packet l.data_read (x ∷ xs)) (e : l.data_read + length (x ∷ xs) ≡ length packet)
        (found : find_request (header packet).requestid l.queue.command_requests ≡ some q)
        (plain : is_read_subcommand q.subcommand ≡ false) where
      abbrev answered : DsiRequest
      answered = record q { return_code = (header packet).return_code }

      whole_there : arrived (stored (x ∷ xs) l) ≡ take (length packet) packet
      whole_there = stored_prefix packet l (x ∷ xs) r n ∙ ap (λ k. take k packet) e

      -- They end the header, and no more follows it.
      recv_header_only :
          l.data_read < header_size
          → dsi_recv (gives (x ∷ xs)) l
            ≡ process_packet (some answered) (noted (stored (x ∷ xs) l) q)
      recv_header_only low =
          let l' : Link = stored (x ∷ xs) l in
          let all : l.data_read + length (x ∷ xs) ≡ header_size =
            omega (arith, n.header_first, whole) in
          let none_left : (header packet).length_of_rest ≡ 0 = omega (arith, whole) in
          let known : read_header l'.incoming_buffer ≡ header packet =
            header_known packet l' (length packet) (omega (arith, whole))
              (ap (λ k. take k l'.incoming_buffer) (sym e) ∙ whole_there) in
          recv_header x xs l low (omega (arith, r.room))
          ∙ if_true
              ((l'.data_read == header_size)
                && ((read_header l'.incoming_buffer).length_of_rest == 0))
              (got_header (gives (x ∷ xs)) l') (returned (pos 0), l')
              (ground (arith, all, ap (λ h. h.length_of_rest) known, none_left))
          ∙ got_header-noted (gives (x ∷ xs)) l' q (rw known found) plain
          ∙ recv_rest-process (gives (x ∷ xs)) (read_header l'.incoming_buffer)
              (record q { return_code = (read_header l'.incoming_buffer).return_code }) (noted l' q)
              all (ap (λ h. h.length_of_rest) known ∙ none_left)
          ∙ ap
              (λ (h : Header).
                process_packet (some (record q { return_code = h.return_code })) (noted l' q))
              known

      recv_end :
          header_size ≤ l.data_read
          → dsi_recv (gives (x ∷ xs)) l
            ≡ process_packet (some answered) (stored (x ∷ xs) (noted l q))
      recv_end late =
          recv_more packet whole l x xs r n q found plain late
          ∙ if_false
              (ltb (stored (x ∷ xs) (noted l q)).data_read
                ((header packet).length_of_rest + header_size))
              (returned (pos 0), stored (x ∷ xs) (noted l q))
              (process_packet (some answered) (stored (x ∷ xs) (noted l q)))
              (ground (arith, e, whole))

      recv_last : is_set q.wait ≡ true → Delivered q.subcommand l (dsi_recv (gives (x ∷ xs)) l)
      recv_last w = elim (Bool-cases (ltb l.data_read header_size)) [
        | inl low ↦
            let d = complete (noted (stored (x ∷ xs) l) q) answered whole_there e w in
            rw (recv_header_only (ground arith))
              (record { outcome = d.outcome; emptied = d.emptied; once = d.once })
        | inr late ↦
            let d = complete (stored (x ∷ xs) (noted l q)) answered whole_there e w in
            rw (recv_end (ground arith))
              (record { outcome = d.outcome; emptied = d.emptied; once = d.once })
      ]

    -- The request that the packet answers is queued, a sender waits for it, and it is not a read.
    pub record Asked (subcommand : ℕ) (l : Link) : Type 0 where
      pub request : DsiRequest
      pub found : find_request (header packet).requestid l.queue.command_requests ≡ some request
      pub plain : is_read_subcommand request.subcommand ≡ false
      pub waits : is_set request.wait ≡ true
      pub same : request.subcommand ≡ subcommand

    noted-Asked :
        (c : ℕ) (xs : List ℕ) (l : Link) (a : Asked c l) → Asked c (stored xs (noted l a.request))
    noted-Asked c xs l a =
        let q = a.request in
        let (r, e, s, w) =
          find-set (header packet).requestid q.address (read_header l.incoming_buffer).return_code
            l.queue.command_requests q a.found in
        record {
          request = r;
          found = e;
          plain = ap is_read_subcommand s ∙ a.plain;
          waits = ap is_set w ∙ a.waits;
          same = s ∙ a.same;
        }

    more :
        (l : Link) (x : ℕ) (xs : List ℕ) (q : DsiRequest)
        → Receiving packet l
        → Next packet l.data_read (x ∷ xs)
        → find_request (header packet).requestid l.queue.command_requests ≡ some q
        → is_read_subcommand q.subcommand ≡ false
        → header_size ≤ l.data_read
        → l.data_read + length (x ∷ xs) < length packet
        → dsi_recv (gives (x ∷ xs)) l ≡ (returned (pos 0), stored (x ∷ xs) (noted l q))
    more l x xs q r n found plain late short =
        recv_more packet whole l x xs r n q found plain late
        ∙ if_true
            (ltb (stored (x ∷ xs) (noted l q)).data_read
              ((header packet).length_of_rest + header_size))
            (returned (pos 0), stored (x ∷ xs) (noted l q))
            (process_packet (some (record q { return_code = (header packet).return_code }))
              (stored (x ∷ xs) (noted l q)))
            (ground (arith, whole))

    -- A reply whose header is that of a command comes in any pieces, of which none reaches from the
    -- header into the rest, into a buffer with room for it; its request is queued, is no read, and has
    -- a sender waiting for it. Then every call of dsi_recv returns 0, the packet is handed on once,
    -- whole and for this request, and the buffer is empty afterwards.
    pub deliver-Delivered :
        (c : ℕ) (cs : List (List ℕ)) (l : Link)
        → Receiving packet l
        → Splits l.data_read cs
        → Asked c l
        → Delivered c l (deliver cs l)
    deliver-Delivered c [] l r s a = absurd (omega (arith, s, r.below))
    deliver-Delivered c ([] ∷ cs) l r s a = absurd (omega (arith, s.0.some_byte))
    deliver-Delivered c ((x ∷ xs) ∷ cs) l r s a =
        elim (Bool-cases (ltb (l.data_read + length (x ∷ xs)) (length packet))) [
          | inl short ↦ elim (Bool-cases (ltb l.data_read header_size)) [
            | inl low ↦
                let d =
                  deliver-Delivered c cs (stored (x ∷ xs) l)
                    (stored-Receiving l (x ∷ xs) r s.0 (ground arith)) s.1
                    (record {
                      request = a.request;
                      found = a.found;
                      plain = a.plain;
                      waits = a.waits;
                      same = a.same;
                    }) in
                rw
                  (deliver_next (x ∷ xs) cs l (stored (x ∷ xs) l)
                    (recv_part_header packet whole l x xs r s.0 (ground arith) (ground arith)))
                  (record { outcome = d.outcome; emptied = d.emptied; once = d.once })
            | inr late ↦
                let n = noted l a.request in
                let p = stored-Receiving l (x ∷ xs) r s.0 (ground arith) in
                let d =
                  deliver-Delivered c cs (stored (x ∷ xs) n)
                    (record { prefix = p.prefix; below = p.below; room = p.room }) s.1
                    (noted-Asked c (x ∷ xs) l a) in
                rw
                  (deliver_next (x ∷ xs) cs l (stored (x ∷ xs) n)
                    (more l x xs a.request r s.0 a.found a.plain (ground arith) (ground arith)))
                  (record { outcome = d.outcome; emptied = d.emptied; once = d.once })
          ]
          | inr full ↦
              let e : l.data_read + length (x ∷ xs) ≡ length packet = ground (arith, s.0.fits) in
              let d = recv_last l x xs a.request r s.0 e a.found a.plain a.waits in
              rw (deliver_last (x ∷ xs) cs l (subst (λ k. Splits k cs) e s.1) d.outcome) (record {
                outcome = d.outcome;
                emptied = d.emptied;
                once = d.once ∙ ap (λ k. replied k packet ∷ l.handled) a.same;
              })
        ]
