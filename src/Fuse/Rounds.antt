-- ===== src/Fuse/Rounds.antt =====
-- One round of the loop of fuse_read in fuse/fuse_int.c.
use mathlib.Core.Option
use time_capsule_mount.Prelude.{
  ℕ, suc, ◌+◌, ◌≡◌, refl, ap, ◌∙◌, true, some, List, CString, ◌==ℤ◌, ◌==◌, ◌||◌, false, length,
  take, drop,
}
use time_capsule_mount.Afp.Codes.{eof_err}
use time_capsule_mount.Afp.Types.{FileInfo}
use time_capsule_mount.Afp.Request.{Request, Reply}
use time_capsule_mount.Afp.Session.{Session, pure, ◌>>=◌}
use time_capsule_mount.Volume.Data.{int32, patch}
use time_capsule_mount.Volume.Reading.{ml_read}
use time_capsule_mount.Fuse.Read.{Done, behind, size_left, after_read, read_rounds}
use time_capsule_mount.Fuse.Answers.{asked, reading}

-- The end of the loop, and its next round, from what ml_read gives.
module _ (s : Session) (fp : FileInfo) (path : CString) (fuel : ℕ) (buf : List ℕ)
    (amount size offset : ℕ) (q q' : List Request) (r : Reply)
    (e : ml_read buf path size offset fp (asked s q) ≡ (reading buf fp r, asked s q')) where
  read_rounds-after :
      read_rounds (suc fuel) path buf amount size offset fp (asked s q)
      ≡ after_read (read_rounds fuel path) amount size offset (reading buf fp r) (asked s q')
  unfolding read_rounds ◌>>=◌
  read_rounds-after = ap (λ p. after_read (read_rounds fuel path) amount size offset p.0 p.1) e

  pub read_rounds-last :
      ((r.code ==ℤ eof_err) || (size_left size (length r.payload) == 0)) ≡ true
      → read_rounds (suc fuel) path buf amount size offset fp (asked s q)
        ≡ (some (int32 (amount + length r.payload), patch buf 0 r.payload), asked s q')
  unfolding after_read pure
  read_rounds-last last = read_rounds-after ∙ rw (last, after_read) refl

  pub read_rounds-next :
      ((r.code ==ℤ eof_err) || (size_left size (length r.payload) == 0)) ≡ false
      → (all : Done) (q'' : List Request)
      → read_rounds fuel path
          (drop (length r.payload) (patch buf 0 r.payload))
          (amount + length r.payload)
          (size_left size (length r.payload))
          (offset + length r.payload)
          fp
          (asked s q')
        ≡ (all, asked s q'')
      → read_rounds (suc fuel) path buf amount size offset fp (asked s q)
        ≡ (Option.map (behind (take (length r.payload) (patch buf 0 r.payload))) all, asked s q'')
  unfolding after_read ◌>>=◌ pure
  read_rounds-next more all q'' rest = read_rounds-after ∙ rw (more, after_read, rest) refl
