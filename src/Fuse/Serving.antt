-- ===== src/Fuse/Serving.antt =====
-- A file that is read through FUSE: fuse_read of fuse/fuse_int.c on ml_read of lib/midlevel.c and ll_read of
-- lib/lowlevel.c.
use mathlib.Core.Option
use time_capsule_mount.Prelude.{
  ℕ, zero, suc, ◌+◌, ◌-◌, ◌^◌, ◌≤◌, ◌<◌, ◌≡◌, refl, sym, ap, ◌∙◌, true, some, List, ◌++◌, CString,
  pos, ltb, ◌==◌, arith, length, take, drop, Bool-cases, inl, inr, length-take, length-drop, ap₂,
  take-split, drop-drop, length-append, take-append, drop-append, append_assoc,
}
use time_capsule_mount.Afp.Codes.{no_err, eof_err}
use time_capsule_mount.Afp.Types.{FileInfo}
use time_capsule_mount.Afp.Request.{Request, Reply}
use time_capsule_mount.Afp.Session.{Session}
use time_capsule_mount.Volume.Names.{convert_path_to_afp, max_path}
use time_capsule_mount.Volume.Data.{int32, patch}
use time_capsule_mount.Fuse.Operations.{Handle}
use time_capsule_mount.Fuse.Read.{Done, behind, size_left, read_rounds, fuse_read}
use time_capsule_mount.Fuse.Answers.{
  Locks, Replies, asked, Passes, FitsBuffer, int32-small, ml_read-asked,
}
use time_capsule_mount.Fuse.Rounds.{read_rounds-last, read_rounds-next}

-- A range whose length fits an int, and with AFP 2.x one that ends within 4 GiB.
abbrev pub WithinReach : Session → (offset count : ℕ) → Type 0
WithinReach s offset count =
    (count < 2 ^ 31) × (ltb s.av_number 30 ≡ true → offset + count ≤ 2 ^ 32)

-- A reply to such a request from a server whose fork holds the file: some bytes of it from the offset on,
-- or, with kFPEOFErr, all up to its end. They all fit what the request has room for, and the rx_quantum of
-- the session.
pub data Answered (rx_quantum : ℕ) (file : List ℕ) (offset count : ℕ) (r : Reply) : Type 0 where
  some_bytes :
      (n : ℕ)
      → 1 ≤ n
      → n ≤ count
      → n ≤ rx_quantum
      → offset + n ≤ length file
      → r.code ≡ no_err
      → r.payload ≡ take n (drop offset file)
      → Answered rx_quantum file offset count r
  all_bytes :
      length file ≤ offset + count
      → length r.payload ≤ rx_quantum
      → r.code ≡ eof_err
      → r.payload ≡ take count (drop offset file)
      → Answered rx_quantum file offset count r

-- The bytes of the file from the offset on.
abbrev pub part : List ℕ → (offset size : ℕ) → List ℕ
part file offset size = take size (drop offset file)

abbrev finished : Session → (amount : ℕ) → List ℕ → List ℕ → List Request → Done × Session
finished s amount buf p q = (some (int32 (amount + length p), patch buf 0 p), asked s q)

size_left-minus : (size k : ℕ) → k ≤ size → size < 2 ^ 64 → size_left size k ≡ size - k
size_left-minus size k h small = omega arith

all_of : (size n : ℕ) → n ≤ size → (size - n == 0) ≡ true → n ≡ size
all_of size n h e = ground arith

length-part :
    (file : List ℕ) (offset n : ℕ)
    → offset + n ≤ length file
    → (p : List ℕ) → p ≡ part file offset n
    → length p ≡ n
length-part file offset n h p e =
    omega (arith, ap length e, length-take n (drop offset file), length-drop offset file)

parts :
    (file : List ℕ) (offset size n : ℕ)
    → n ≤ size
    → (p : List ℕ) → p ≡ part file offset n
    → length p ≡ n
    → (size' : ℕ) → size' ≡ size - n
    → p ++ part file (offset + length p) size' ≡ part file offset size
parts file offset size n h p e len size' left =
    ap₂ ◌++◌ e (
      ap₂ (part file) (ap (◌+◌ offset) len) left
      ∙ ap (take (size - n)) (sym (drop-drop offset n file)))
    ∙ take-split size n (drop offset file) h

joined :
    (s : Session) (amount : ℕ) (buf p w : List ℕ) (q : List Request)
    → (
      Option.map (behind (take (length p) (patch buf 0 p))) (
          some (int32 (amount + length p + length w), patch (drop (length p) (patch buf 0 p)) 0 w)),
      asked s q,
    )
      ≡ finished s amount buf (p ++ w) q
joined s amount buf p w q =
    let size : length (p ++ w) ≡ length p + length w = length-append p w in
    let total : amount + length p + length w ≡ amount + length (p ++ w) = omega (arith, size) in
    ap₂ (λ n b. (some (int32 n, b), asked s q)) total
      (ap₂ (λ a b. a ++ (w ++ drop (0 + length w) b)) (take-append p (drop (0 + length p) buf))
          (drop-append p (drop (0 + length p) buf))
        ∙ ap (λ z. p ++ (w ++ z))
            (drop-drop (0 + length p) (0 + length w) buf
              ∙ ap (λ k. drop k buf) (omega (arith, size)))
        ∙ sym (append_assoc p w (drop (0 + length (p ++ w)) buf)))

Answered-Passes :
    (rx_quantum : ℕ) (file : List ℕ) (offset count : ℕ) (r : Reply)
    → Answered rx_quantum file offset count r
    → Passes r
Answered-Passes rx_quantum file offset count r (some_bytes n a b b' c code payload) = rw code refl
Answered-Passes rx_quantum file offset count r (all_bytes a b code payload) = rw code refl

Answered-FitsBuffer :
    (rx_quantum : ℕ) (file : List ℕ) (offset count : ℕ) (r : Reply)
    → count < 2 ^ 31
    → Answered rx_quantum file offset count r
    → FitsBuffer rx_quantum count r
Answered-FitsBuffer rx_quantum file offset count r small (some_bytes n a b b' c code payload) =
    let len = length-part file offset n c r.payload payload in
    (omega (arith, len), omega (arith, len))
Answered-FitsBuffer rx_quantum file offset count r small (all_bytes a b code payload) =
    let len = ap length payload ∙ length-take count (drop offset file) in
    (omega (arith, len), omega (arith, len))

module _ (s : Session) (fp : FileInfo) (file : List ℕ) (path converted : CString)
    (plain : fp.resource ≡ 0)
    (converts : convert_path_to_afp s.path_encoding path max_path ≡ some converted)
    (grants : Locks s fp.forkid)
    (replies : Replies s fp.forkid (WithinReach s) (Answered s.rx_quantum file)) where
  rounds-asked :
      (fuel : ℕ) (buf : List ℕ) (amount size offset : ℕ) (q : List Request)
      → size ≤ fuel
      → 1 ≤ size
      → WithinReach s offset size
      → (q' : List Request) × (read_rounds fuel path buf amount size offset fp (asked s q)
          ≡ finished s amount buf (part file offset size) q')
  rounds-asked zero buf amount size offset q room one reach = absurd (omega arith)
  rounds-asked (suc fuel) buf amount size offset q room one reach =
      let (r, answer, q1, e) =
        ml_read-asked s fp grants (WithinReach s) (Answered s.rx_quantum file)
          (Answered-Passes s.rx_quantum file)
          (λ offset count r near. Answered-FitsBuffer s.rx_quantum file offset count r near.0)
          replies path converted plain converts buf size offset q one reach in
      elim answer [
        | all_bytes a b code payload ↦ (
          q1,
          read_rounds-last s fp path fuel buf amount size offset q q1 r e (rw code refl)
              ∙ ap (λ p. finished s amount buf p q1) payload,
        )
        | some_bytes n a b b' c code payload ↦
            let len : length r.payload ≡ n = length-part file offset n c r.payload payload in
            let left : size_left size (length r.payload) ≡ size - n =
              ap (size_left size) len ∙ size_left-minus size n b (omega (arith, reach.0)) in
            elim (Bool-cases (size - n == 0)) [
              | inl all ↦ (
                q1,
                read_rounds-last s fp path fuel buf amount size offset q q1 r e
                      (rw (code, left, all) refl)
                    ∙ ap (λ p. finished s amount buf p q1)
                        (payload ∙ ap (part file offset) (all_of size n b all)),
              )
              | inr more ↦
                  let size' = size_left size (length r.payload) in
                  let buf' = drop (length r.payload) (patch buf 0 r.payload) in
                  let (q2, rest) =
                    rounds-asked fuel buf' (amount + length r.payload) size'
                      (offset + length r.payload) q1 (ground (arith, left)) (ground (arith, left))
                      (
                        ground (arith, left, reach.0),
                        λ old. ground (arith, left, len, reach.1 old),
                      ) in
                  (
                    q2,
                    read_rounds-next s fp path fuel buf amount size offset q q1 r e
                          (rw (code, left, more) refl) _ q2 rest
                        ∙ joined s amount buf r.payload
                            (part file (offset + length r.payload) size') q2
                        ∙ ap (λ p. finished s amount buf p q2)
                            (parts file offset size n b r.payload payload len size' left),
                  )
            ]
      ]

zero_plus : (n : ℕ) → 0 + n ≡ n
zero_plus n = omega arith

-- A server that gives the locks and answers each read from a file, with any number of bytes from the
-- offset on up to the count asked for, or with kFPEOFErr and all up to the end of the file: whatever
-- numbers it chooses, fuse_read comes to an end within as many rounds as bytes are asked for, returns
-- the number of bytes that the file has there, up to the size, and puts exactly these into the buffer,
-- which stays as it is behind them. No reply has more than the rx_quantum of the session. The file is a
-- plain one, its path can be converted, the size is positive and fits an int, and with AFP 2.x, where
-- offsets have 32 bits, what is asked for ends within 4 GiB.
pub fuse_read-Answered :
    (s : Session) (fh : Handle) (file : List ℕ) (path converted : CString) (fuel : ℕ) (buf : List ℕ)
    (size offset : ℕ)
    → fh.file.resource ≡ 0
    → convert_path_to_afp s.path_encoding path max_path ≡ some converted
    → Locks s fh.file.forkid
    → Replies s fh.file.forkid (WithinReach s) (Answered s.rx_quantum file)
    → size ≤ fuel
    → 1 ≤ size
    → size < 2 ^ 31
    → (ltb s.av_number 30 ≡ true → offset + size ≤ 2 ^ 32)
    → let bytes = part file offset size in
      (fuse_read fuel buf path size offset (some fh) s).0
      ≡ some (pos (length bytes), patch buf 0 bytes)
unfolding fuse_read
fuse_read-Answered s fh file path converted fuel buf size offset plain converts grants replies room
      one small near =
    let (q', e) =
      rounds-asked s fh.file file path converted plain converts grants replies fuel buf 0 size
        offset s.sent room one (small, near) in
    let bytes = part file offset size in
    let few : length bytes < 2 ^ 31 = omega (arith, length-take size (drop offset file)) in
    ap (λ p. p.0) e
    ∙ ap (λ z. some (z, patch buf 0 bytes))
        (ap int32 (zero_plus (length bytes)) ∙ int32-small (length bytes) few)
