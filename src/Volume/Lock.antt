-- ===== src/Volume/Lock.antt =====
-- Byte range locks and the truncation of a fork: lib/lowlevel.c.
use time_capsule_mount.Prelude.{
  ℕ, zero, suc, ◌%◌, ◌^◌, Bool, true, false, ◌||◌, [], ◌∷◌, ℤ, pos, neg, ◌==ℤ◌, ltb, if◌then◌else◌,
}
use time_capsule_mount.Afp.Codes.{
  no_err, no_more_locks, lock_err, access_denied, vol_locked, disk_full, bitmap_err, misc_err,
  param_err,
}
use time_capsule_mount.Afp.Errno.{eacces, ebusy, enospc, eio}
use time_capsule_mount.Afp.Bits.{
  rsrc_fork_len_bit, data_fork_len_bit, ext_rsrc_fork_len_bit, ext_data_fork_len_bit,
}
use time_capsule_mount.Afp.Types.{ServerType}
use time_capsule_mount.Afp.Request.{Request, lock, lock_ext, unlock, unlock_ext, set_fork_parms}
use time_capsule_mount.Afp.Session.{M, get, pure, ◌>>=◌}
use time_capsule_mount.Volume.Control.{switch, call}

abbrev pub is_netatalk : ServerType → Bool
is_netatalk ServerType.netatalk = true
is_netatalk _ = false

-- The offset and the length of afp_byterangelock have 32 bits.
unfoldable pub ll_handle_unlocking : (forkid offset size : ℕ) → M ℤ
ll_handle_unlocking forkid offset size = do
  s ← get
  elim s.extra_flags.no_locking [
    | true ↦ pure (pos 0)
    | false ↦ do
      rc ← call (
          if ltb s.av_number 30
          then unlock forkid (offset % 2 ^ 32) (size % 2 ^ 32)
          else unlock_ext forkid offset size)
      pure (if rc ==ℤ no_err then pos 0 else neg 1)
  ]

-- MAX_LOCKTRYCOUNT
abbrev pub max_lock_tries : ℕ
max_lock_tries = 10

-- The loop, with the tries that are left. It ends with 0 also when none is left.
unfoldable pub try_lock : ℕ → Request → M ℤ
try_lock zero r = pure (pos 0)
try_lock (suc n) r = do
  rc ← call r
  elim (rc ==ℤ no_err) [
    | true ↦ pure (pos 0)
    | false ↦ elim (rc ==ℤ no_more_locks || rc ==ℤ lock_err) [
      | true ↦ try_lock n r
      | false ↦ pure (neg 1)
    ]
  ]

unfoldable pub ll_handle_locking : (forkid offset size : ℕ) → M ℤ
ll_handle_locking forkid offset size = do
  s ← get
  elim s.extra_flags.no_locking [
    | true ↦ pure (pos 0)
    | false ↦ try_lock max_lock_tries (
        if ltb s.av_number 30
        then lock forkid (offset % 2 ^ 32) (size % 2 ^ 32)
        else lock_ext forkid offset size)
  ]

-- It returns a positive errno, or 0.
unfoldable pub ll_zero_file : (forkid : ℕ) → (resource : Bool) → M ℕ
ll_zero_file forkid resource = do
  s ← get
  let bitmap =
      if ltb s.av_number 30 || is_netatalk s.server_type
      then (if resource then rsrc_fork_len_bit else data_fork_len_bit)
      else (if resource then ext_rsrc_fork_len_bit else ext_data_fork_len_bit)
  ret ← call (set_fork_parms forkid bitmap 0)
  pure (
      switch ret
        ((access_denied, eacces)
          ∷ (vol_locked, ebusy)
          ∷ (lock_err, ebusy)
          ∷ (disk_full, enospc)
          ∷ (bitmap_err, eio)
          ∷ (misc_err, eio)
          ∷ (param_err, eio)
          ∷ [])
        0)
