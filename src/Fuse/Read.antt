-- ===== src/Fuse/Read.antt =====
-- Reading through FUSE: fuse_read of fuse/fuse_int.c. Its loop has no bound in the source; `fuel` bounds
-- the rounds, and `none` says that it was not enough.
use mathlib.Core.Option
use time_capsule_mount.Prelude.{
  ℕ, zero, suc, ◌+◌, ◌-◌, ◌%◌, ◌^◌, true, false, ◌||◌, Option, none, some, List, ◌++◌, CString, ℤ,
  neg, is_neg, ◌==◌, take, drop,
}
use time_capsule_mount.Afp.Errno.{ebadf}
use time_capsule_mount.Afp.Types.{FileInfo}
use time_capsule_mount.Afp.Session.{M, pure, ◌>>=◌}
use time_capsule_mount.Volume.Stats.{natural}
use time_capsule_mount.Volume.Data.{int32}
use time_capsule_mount.Volume.Reading.{Reading, ml_read}
use time_capsule_mount.Fuse.Operations.{Handle}

-- size-=ret, on a size_t
abbrev pub size_left : (size ret : ℕ) → ℕ
size_left size ret = (size + 2 ^ 64 - ret) % 2 ^ 64

-- The return value of fuse_read, which is amount_read as an int, and the buffer. (amount_read is a
-- size_t; what it wraps at is a multiple of what the int wraps at.)
abbrev pub Done : Type 0
Done = Option (ℤ × List ℕ)

abbrev pub behind : List ℕ → ℤ × List ℕ → ℤ × List ℕ
behind bytes (ret, buf) = (ret, bytes ++ buf)

-- A round behind ml_read: what it returns is an error, or the last part, or the `next` round follows, on
-- the rest of the buffer. The buffer that is given is the one from buf+amount_read on.
unfoldable pub after_read :
    (next : List ℕ → (amount_read size offset : ℕ) → FileInfo → M Done)
    → (amount_read size offset : ℕ) → Reading
    → M Done
after_read next amount_read size offset r =
    let ret = natural r.returns in
    elim (is_neg r.returns) [
      | true ↦ pure (some (r.returns, r.buffer))
      | false ↦ elim (r.at_eof || size_left size ret == 0) [
        | true ↦ pure (some (int32 (amount_read + ret), r.buffer))
        | false ↦ do
          rest ←
              next (drop ret r.buffer) (amount_read + ret) (size_left size ret) (offset + ret)
                r.file
          pure (Option.map (behind (take ret r.buffer)) rest)
      ]
    ]

-- while (1): `buf` is the buffer from buf+amount_read on.
unfoldable pub read_rounds :
    (fuel : ℕ) → CString → List ℕ → (amount_read size offset : ℕ) → FileInfo → M Done
read_rounds zero path buf amount_read size offset fp = pure none
read_rounds (suc fuel) path buf amount_read size offset fp = do
  r ← ml_read buf path size offset fp
  after_read (read_rounds fuel path) amount_read size offset r

unfoldable pub fuse_read :
    (fuel : ℕ) → List ℕ → CString → (size offset : ℕ) → Option Handle → M Done
fuse_read fuel buf path size offset none = pure (some (neg ebadf, buf))
fuse_read fuel buf path size offset (some fh) = read_rounds fuel path buf 0 size offset fh.file
