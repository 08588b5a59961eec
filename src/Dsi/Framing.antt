-- ===== src/Dsi/Framing.antt =====
-- A reply packet that arrives in pieces, through dsi_recv of lib/dsi.c.
use time_capsule_mount.Prelude.{
  ℕ, suc, ◌+◌, ◌≤◌, ◌<◌, ◌≡◌, ◌≢◌, refl, ap, ◌∙◌, true, false, ◌&&◌, ◌⊎◌, inl, inr, some, List, [],
  ◌∷◌, ◌++◌, pos, is_set, ◌==◌, ltb, if◌then◌else◌, arith, length, take, drop, Bool-cases,
}
use time_capsule_mount.Dsi.Wire.{Header, header_size, read_header, dsi_command}
use time_capsule_mount.Dsi.Queue.{DsiRequest, Queue, find_request, set_request}
use time_capsule_mount.Dsi.Buffer.{take-take-drop, take-store_at, read_header-take}
use time_capsule_mount.Dsi.Receive.{
  replied, Link, returned, Read, Result, store_at, arrived, read_into, process_packet, recv_rest,
  got_header, dsi_recv, is_read_subcommand,
}

-- read(2) gives these bytes.
abbrev pub gives : List ℕ → Read
gives xs n = some xs

-- The link after a read of `xs`.
abbrev pub stored : List ℕ → Link → Link
stored xs l = record l {
  incoming_buffer = store_at l.incoming_buffer l.data_read xs;
  data_read = l.data_read + length xs;
  rx_bytes = l.rx_bytes + length xs;
}

read_into-stored :
    (x : ℕ) (xs : List ℕ) (amount : ℕ) (l : Link) (next : Link → Result)
    → l.data_read + length (x ∷ xs) ≤ length l.incoming_buffer
    → read_into (gives (x ∷ xs)) amount l next ≡ next (stored (x ∷ xs) l)
unfolding read_into
read_into-stored x xs amount l next h = ground arith

-- The request that the packet answers is queued, and a sender waits for it.
abbrev pub Awaited : ℕ → ℕ → Queue → Type 0
Awaited id subcommand q =
    (r : DsiRequest) × (find_request id q.command_requests ≡ some r)
    × (r.subcommand ≡ subcommand)
    × (is_set r.wait ≡ true)

pub process_reply :
    (r : DsiRequest) (l : Link)
    → (read_header l.incoming_buffer).command ≡ dsi_command
    → l.data_read ≡ (read_header l.incoming_buffer).length_of_rest + header_size
    → is_set r.wait ≡ true
    → let p = process_packet (some r) l in
      (p.0 ≡ returned (pos 0))
      × (p.1.data_read ≡ 0)
      × (p.1.handled ≡ replied r.subcommand (arrived l) ∷ l.handled)
unfolding process_packet
process_reply r l c e w = ground arith

-- The link after dsi_recv has noted the result code in the request.
abbrev pub noted : Link → DsiRequest → Link
noted l r =
    let q = l.queue in
    record l {
      queue = record q {
        command_requests =
            set_request r.address
              (λ p. record p { return_code = (read_header l.incoming_buffer).return_code })
              q.command_requests;
      };
    }

pub got_header-noted :
    (read : Read) (l : Link) (r : DsiRequest)
    → find_request (read_header l.incoming_buffer).requestid l.queue.command_requests ≡ some r
    → is_read_subcommand r.subcommand ≡ false
    → got_header read l
      ≡ recv_rest read
          (read_header l.incoming_buffer)
          false
          (some (record r { return_code = (read_header l.incoming_buffer).return_code }))
          (noted l r)
unfolding got_header
got_header-noted read l r e k = rw (e, got_header) (rw k)

pub recv_header :
    (x : ℕ) (xs : List ℕ) (l : Link)
    → l.data_read < header_size
    → l.data_read + length (x ∷ xs) ≤ length l.incoming_buffer
    → let l' = stored (x ∷ xs) l in
      dsi_recv (gives (x ∷ xs)) l ≡ (
        if (l'.data_read == header_size) && ((read_header l'.incoming_buffer).length_of_rest == 0)
        then got_header (gives (x ∷ xs)) l'
        else (returned (pos 0), l'))
unfolding dsi_recv
recv_header x xs l low room = ground arith

recv_late :
    (read : Read) (l : Link) → header_size ≤ l.data_read → dsi_recv read l ≡ got_header read l
unfolding dsi_recv
recv_late read l h = ground arith

pub recv_rest-process :
    (read : Read) (h : Header) (r : DsiRequest) (l : Link)
    → l.data_read ≡ header_size
    → h.length_of_rest ≡ 0
    → recv_rest read h false (some r) l ≡ process_packet (some r) l
unfolding recv_rest
recv_rest-process read h r l e z = ground arith

recv_rest-read :
    (x : ℕ) (xs : List ℕ) (h : Header) (r : DsiRequest) (l : Link)
    → h.length_of_rest ≢ 0
    → l.data_read + length (x ∷ xs) ≤ length l.incoming_buffer
    → let l' = stored (x ∷ xs) l in
      recv_rest (gives (x ∷ xs)) h false (some r) l ≡ (
        if ltb l'.data_read (h.length_of_rest + header_size)
        then (returned (pos 0), l')
        else process_packet (some r) l')
unfolding recv_rest
recv_rest-read x xs h r l z room = ground arith

pub find-set :
    (i a c : ℕ) (ps : List DsiRequest) (r : DsiRequest)
    → find_request i ps ≡ some r
    → (r' : DsiRequest) × (find_request i (set_request a (λ p. record p { return_code = c }) ps)
        ≡ some r')
      × (r'.subcommand ≡ r.subcommand)
      × (r'.wait ≡ r.wait)
unfolding find_request set_request
find-set i a c [] r e = ground arith
find-set i a c (p ∷ ps) r e = elim (Bool-cases (i == p.requestid)) [
  | inl same ↦ elim (Bool-cases (p.address == a)) [
    | inl here ↦ (record p { return_code = c }, ground arith, ground arith, ground arith)
    | inr there ↦ (p, ground arith, ground arith, ground arith)
  ]
  | inr other ↦ elim (Bool-cases (p.address == a)) [
    | inl here ↦ (r, ground arith, refl, refl)
    | inr there ↦
        let (r', e', s, w) = find-set i a c ps r (ground arith) in (r', ground arith, s, w)
  ]
]

module _ (packet : List ℕ) where
  abbrev pub header : Header
  header = read_header packet

  -- A proper prefix of the packet has arrived, and the buffer holds the whole.
  pub record Receiving (l : Link) : Type 0 where
    pub prefix : arrived l ≡ take l.data_read packet
    pub below : l.data_read < length packet
    pub room : length packet ≤ length l.incoming_buffer

  -- The bytes are the next of the packet after `at` of them, and the header arrives by itself.
  pub record Next (at : ℕ) (xs : List ℕ) : Type 0 where
    pub some_byte : 0 < length xs
    pub bytes : xs ≡ take (length xs) (drop at packet)
    pub fits : at + length xs ≤ length packet
    pub header_first : (header_size ≤ at) ⊎ (at + length xs ≤ header_size)

  pub header_known :
      (l : Link) (n : ℕ)
      → 16 ≤ n
      → take n l.incoming_buffer ≡ take n packet
      → read_header l.incoming_buffer ≡ header
  header_known l n h e = read_header-take n l.incoming_buffer packet (omega arith) e

  pub stored_prefix :
      (l : Link) (xs : List ℕ)
      → Receiving l
      → Next l.data_read xs
      → arrived (stored xs l) ≡ take (l.data_read + length xs) packet
  stored_prefix l xs r n =
      take-store_at l.incoming_buffer l.data_read xs (omega (arith, r.below, r.room))
      ∙ ap (λ p. p ++ xs) r.prefix
      ∙ ap (◌++◌ (take l.data_read packet)) n.bytes
      ∙ take-take-drop l.data_read (length xs) packet

  module _ (whole : length packet ≡ header.length_of_rest + header_size) where
    longer :
        (l : Link)
        → (read_header l.incoming_buffer ≡ header)
        → l.data_read < length packet
        → header_size ≤ l.data_read
        → (read_header l.incoming_buffer).length_of_rest ≢ 0
    longer l e below at = omega (arith, whole, ap (λ h. h.length_of_rest) e)

    -- Some of the header, and not the whole packet.
    pub recv_part_header :
        (l : Link) (x : ℕ) (xs : List ℕ)
        → Receiving l
        → Next l.data_read (x ∷ xs)
        → l.data_read < header_size
        → l.data_read + length (x ∷ xs) < length packet
        → dsi_recv (gives (x ∷ xs)) l ≡ (returned (pos 0), stored (x ∷ xs) l)
    recv_part_header l x xs r n low short =
        recv_header x xs l low (omega (arith, r.room))
        ∙ elim (Bool-cases ((stored (x ∷ xs) l).data_read == header_size)) [
          | inl full ↦ ground (
            arith,
            longer (stored (x ∷ xs) l) (
                header_known (stored (x ∷ xs) l) (l.data_read + suc (length xs)) (ground arith)
                  (stored_prefix l (x ∷ xs) r n)),
          )
          | inr part ↦ rw part
        ]

    -- What one call of dsi_recv does with the next bytes of the packet.
    module _ (l : Link) (x : ℕ) (xs : List ℕ) (r : Receiving l) (n : Next l.data_read (x ∷ xs))
        (q : DsiRequest) (found : find_request header.requestid l.queue.command_requests ≡ some q)
        (plain : is_read_subcommand q.subcommand ≡ false) (late : header_size ≤ l.data_read) where
      known : read_header l.incoming_buffer ≡ header
      known = header_known l l.data_read late r.prefix

      pub recv_more : dsi_recv (gives (x ∷ xs)) l ≡ (
          let l' = stored (x ∷ xs) (noted l q) in
          if ltb l'.data_read (header.length_of_rest + header_size)
          then (returned (pos 0), l')
          else process_packet (some (record q { return_code = header.return_code })) l')
      recv_more =
          recv_late (gives (x ∷ xs)) l late
          ∙ got_header-noted (gives (x ∷ xs)) l q (rw known found) plain
          ∙ recv_rest-read x xs (read_header l.incoming_buffer)
              (record q { return_code = (read_header l.incoming_buffer).return_code }) (noted l q)
              (longer l known r.below late) (omega (arith, r.room, n.fits))
          ∙ rw known
