-- ===== src/Fuse/Unread.antt =====
-- A read that FUSE waits for in vain: fuse_read of fuse/fuse_int.c on ll_read of lib/lowlevel.c.
use time_capsule_mount.Prelude.{
  ℕ, zero, suc, ◌+◌, ◌^◌, ◌≤◌, ◌<◌, ◌≡◌, refl, ap, ◌∙◌, false, none, some, List, [], CString, ◌==ℤ◌,
  ◌==◌, arith, length, drop,
}
use time_capsule_mount.Afp.Codes.{access_denied, eof_err, lock_err, misc_err, param_err}
use time_capsule_mount.Afp.Types.{FileInfo}
use time_capsule_mount.Afp.Request.{Request, Reply}
use time_capsule_mount.Afp.Session.{Session, pure}
use time_capsule_mount.Volume.Names.{convert_path_to_afp, max_path}
use time_capsule_mount.Volume.Data.{patch}
use time_capsule_mount.Fuse.Operations.{Handle}
use time_capsule_mount.Fuse.Read.{size_left, read_rounds, fuse_read}
use time_capsule_mount.Fuse.Answers.{Locks, Replies, asked, Passes, FitsBuffer, ml_read-asked}
use time_capsule_mount.Fuse.Rounds.{read_rounds-next}

-- Every range is within reach.
abbrev pub AnyRange : (offset count : ℕ) → Type 0
AnyRange offset count = Unit

-- A reply without data and with a result that ll_read has no case for.
pub record Unlisted (offset count : ℕ) (r : Reply) : Type 0 where
  pub no_access_denied : (r.code ==ℤ access_denied) ≡ false
  pub no_lock_err : (r.code ==ℤ lock_err) ≡ false
  pub no_misc_err : (r.code ==ℤ misc_err) ≡ false
  pub no_param_err : (r.code ==ℤ param_err) ≡ false
  pub no_eof_err : (r.code ==ℤ eof_err) ≡ false
  pub no_data : r.payload ≡ []

Unlisted-Passes : (offset count : ℕ) (r : Reply) → Unlisted offset count r → Passes r
Unlisted-Passes offset count r u =
    rw (u.no_access_denied, u.no_lock_err, u.no_misc_err, u.no_param_err) refl

no_data-FitsBuffer :
    (rx_quantum count : ℕ) (r : Reply) → r.payload ≡ [] → FitsBuffer rx_quantum count r
no_data-FitsBuffer rx_quantum count r e =
    let l : length r.payload ≡ 0 = ap length e in (omega (arith, l), omega (arith, l))

all_left : (size : ℕ) → size < 2 ^ 64 → size_left size 0 ≡ size
all_left size small = omega arith

positive : (n : ℕ) → 1 ≤ n → (n == 0) ≡ false
positive n h = ground arith

module _ (s : Session) (fp : FileInfo) (path converted : CString) (plain : fp.resource ≡ 0)
    (converts : convert_path_to_afp s.path_encoding path max_path ≡ some converted)
    (grants : Locks s fp.forkid) (replies : Replies s fp.forkid AnyRange Unlisted) where
  rounds-asked :
      (fuel : ℕ) (buf : List ℕ) (amount size offset : ℕ) (q : List Request)
      → 1 ≤ size
      → size < 2 ^ 64
      → (q' : List Request) × (read_rounds fuel path buf amount size offset fp (asked s q)
          ≡ (none, asked s q'))
  unfolding read_rounds pure
  rounds-asked zero buf amount size offset q one small = (q, refl)
  rounds-asked (suc fuel) buf amount size offset q one small =
      let (r, u, q1, e) =
        ml_read-asked s fp grants AnyRange Unlisted Unlisted-Passes
          (λ offset count r any u. no_data-FitsBuffer s.rx_quantum count r u.no_data) replies path
          converted plain converts buf size offset q one tt in
      let left : size_left size (length r.payload) ≡ size =
        ap (λ p. size_left size (length p)) u.no_data ∙ all_left size small in
      let (q2, rest) =
        rounds-asked fuel (drop (length r.payload) (patch buf 0 r.payload))
          (amount + length r.payload) (size_left size (length r.payload))
          (offset + length r.payload) q1 (omega (arith, left)) (omega (arith, left)) in
      (
        q2,
        read_rounds-next s fp path fuel buf amount size offset q q1 r e
            (rw (u.no_eof_err, left) (positive size one)) none q2 rest,
      )

-- Where a server gives the locks and answers each read with no data and a result that ll_read has no
-- case for, fuse_read is not at its end after any number of rounds, for a plain file whose path can be
-- converted and a positive size that fits a size_t.
pub fuse_read-unread :
    (s : Session) (fh : Handle) (path converted : CString) (fuel : ℕ) (buf : List ℕ)
    (size offset : ℕ)
    → fh.file.resource ≡ 0
    → convert_path_to_afp s.path_encoding path max_path ≡ some converted
    → Locks s fh.file.forkid
    → Replies s fh.file.forkid AnyRange Unlisted
    → 1 ≤ size
    → size < 2 ^ 64
    → (fuse_read fuel buf path size offset (some fh) s).0 ≡ none
unfolding fuse_read
fuse_read-unread s fh path converted fuel buf size offset plain converts grants replies one small =
    let (q', e) =
      rounds-asked s fh.file path converted plain converts grants replies fuel buf 0 size offset
        s.sent one small in
    ap (λ p. p.0) e
