-- ===== src/Volume/Writing.antt =====
-- What ll_write of lib/lowlevel.c sends.
use time_capsule_mount.Prelude.{
  ℕ, zero, suc, ◌%◌, ◌^◌, true, Bool-cases, refl, inl, inr, ◌+◌, ◌≤◌, ◌<◌, ◌≡◌, sym, ap, ◌∙◌, subst,
  List, [], ◌∷◌, ◌++◌, ltb, if◌then◌else◌, arith, length, take, drop, append-nil, append_assoc,
  length-append, length-drop, take-append-drop,
}
use time_capsule_mount.Afp.Request.{Request, write, write_ext}
use time_capsule_mount.Afp.Session.{Session, get, pure, ◌>>=◌, exchange}
use time_capsule_mount.Volume.Control.{call}
use time_capsule_mount.Volume.Data.{write_chunks}

-- The request that writes a piece at an offset.
abbrev pub write_request : (av_number forkid offset : ℕ) → List ℕ → Request
write_request av_number forkid offset piece =
    if ltb av_number 30
    then write forkid offset (length piece) piece
    else write_ext forkid offset (length piece) piece

-- The requests of `sent`, newest first, that stand before those of `before`, write these bytes from
-- `offset` on in the fork, each piece where the one before it ends.
pub data Wrote (av_number forkid offset : ℕ) (before : List Request)
    : List ℕ → List Request → Type 0 where
  nothing : Wrote av_number forkid offset before [] before
  piece :
      {bytes : List ℕ} {sent : List Request}
      → Wrote av_number forkid offset before bytes sent
      → (next : List ℕ)
      → Wrote av_number forkid offset before
          (bytes ++ next)
          (write_request av_number forkid (offset + length bytes) next ∷ sent)

-- Where it is below 4 GiB the offset is not cut.
uncut :
    (av_number forkid offset : ℕ) (bytes : List ℕ)
    → (ltb av_number 30 ≡ true → offset < 2 ^ 32)
    → (if ltb av_number 30
        then write forkid (offset % 2 ^ 32) (length bytes) bytes
        else write_ext forkid offset (length bytes) bytes)
      ≡ write_request av_number forkid offset bytes
uncut av_number forkid offset bytes h = elim (Bool-cases (ltb av_number 30)) [
  | inr new ↦ rw new refl
  | inl old ↦
      let same : offset % 2 ^ 32 ≡ offset = omega (arith, h old) in
      ap
        (λ o.
          if ltb av_number 30
          then write forkid o (length bytes) bytes
          else write_ext forkid offset (length bytes) bytes)
        same
]

-- With the version 2.x the data ends within 4 GiB.
abbrev FitsOffset : Session → (end : ℕ) → Type 0
FitsOffset s end = ltb s.av_number 30 ≡ true → end ≤ 2 ^ 32

chunks-Wrote :
    (n forkid offset : ℕ) (before : List Request) (bytes rest : List ℕ) (s : Session)
    → 0 < s.tx_quantum
    → length rest ≤ n
    → FitsOffset s (offset + length bytes + length rest)
    → Wrote s.av_number forkid offset before bytes s.sent
    → let r = write_chunks n forkid offset (length bytes) rest s in
      (r.0 ≡ length bytes + length rest)
      × Wrote s.av_number forkid offset before (bytes ++ rest) r.1.sent
unfolding write_chunks ◌>>=◌ get pure call exchange
chunks-Wrote zero forkid offset before bytes [] s t h f w = (omega arith, rw (append-nil bytes) w)
chunks-Wrote zero forkid offset before bytes (x ∷ rest) s t h f w = absurd (omega arith)
chunks-Wrote (suc n) forkid offset before bytes [] s t h f w =
    (omega arith, rw (append-nil bytes) w)
chunks-Wrote (suc n) forkid offset before bytes (x ∷ rest) s t h f w =
    let chunk = take s.tx_quantum (x ∷ rest) in
    let left = drop s.tx_quantum (x ∷ rest) in
    let at : ℕ = offset + length bytes in
    let request =
      (if ltb s.av_number 30
        then write forkid (at % 2 ^ 32) (length chunk) chunk
        else write_ext forkid at (length chunk) chunk) in
    let s' = (call request s).1 in
    let same : request ≡ write_request s.av_number forkid at chunk =
      uncut s.av_number forkid at chunk (λ old. omega (arith, f old)) in
    let w' : Wrote s.av_number forkid offset before (bytes ++ chunk) s'.sent =
      subst (λ r. Wrote s.av_number forkid offset before (bytes ++ chunk) (r ∷ s.sent)) (sym same)
        (piece w chunk) in
    let shorter : length left ≤ n = omega (arith, length-drop s.tx_quantum (x ∷ rest)) in
    let whole : (bytes ++ chunk) ++ left ≡ bytes ++ (x ∷ rest) =
      append_assoc bytes chunk left ∙ ap (◌++◌ bytes) (take-append-drop s.tx_quantum (x ∷ rest)) in
    let count : length (bytes ++ chunk) + length left ≡ length bytes + length (x ∷ rest) =
      sym (length-append (bytes ++ chunk) left)
      ∙ ap length whole
      ∙ length-append bytes (x ∷ rest) in
    let fits : FitsOffset s' (offset + length (bytes ++ chunk) + length left) =
      λ old. omega (arith, f old, count) in
    let (total, all) =
      chunks-Wrote n forkid offset before (bytes ++ chunk) left s' t shorter fits w' in
    subst
      (λ k.
        let r = write_chunks n forkid offset k left s' in
        (r.0 ≡ length bytes + length (x ∷ rest))
        × Wrote s.av_number forkid offset before (bytes ++ (x ∷ rest)) r.1.sent)
      (length-append bytes chunk)
      (
        total ∙ count,
        subst
            (λ b.
              Wrote s.av_number forkid offset before b
                (write_chunks n forkid offset (length (bytes ++ chunk)) left s').1.sent)
            whole all,
      )

-- The pieces that ll_write sends write all the data, in order and without a gap, from the offset on,
-- and it counts all of them as written, whatever the server answers. The server's largest packet is
-- not empty, and with AFP 2.x, where the offset has 32 bits, the data ends within 4 GiB.
pub write_chunks-Wrote :
    (forkid offset : ℕ) (bytes : List ℕ) (s : Session)
    → 0 < s.tx_quantum
    → (ltb s.av_number 30 ≡ true → offset + length bytes ≤ 2 ^ 32)
    → let r = write_chunks (length bytes) forkid offset 0 bytes s in
      (r.0 ≡ length bytes) × Wrote s.av_number forkid offset s.sent bytes r.1.sent
write_chunks-Wrote forkid offset bytes s t f =
    let (total, all) =
      chunks-Wrote (length bytes) forkid offset s.sent [] bytes s t (omega arith)
        (λ old. omega (arith, f old)) nothing in
    (omega (arith, total), all)
