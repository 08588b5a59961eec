-- ===== src/Volume/Bounds.antt =====
-- The locks of lib/lowlevel.c are tried a bounded number of times.
use time_capsule_mount.Prelude.{
  ℕ, zero, suc, ◌+◌, ◌%◌, ◌^◌, ◌≤◌, ◌≡◌, ◌⊎◌, inl, refl, pos, neg, ltb, if◌then◌else◌, arith,
  length,
}
use time_capsule_mount.Afp.Request.{Request, lock, lock_ext}
use time_capsule_mount.Afp.Session.{Session, get, pure, ◌>>=◌, exchange}
use time_capsule_mount.Volume.Control.{call}
use time_capsule_mount.Volume.Lock.{try_lock, ll_handle_locking, max_lock_tries}

try_lock-bound :
    (n : ℕ) (r : Request) (s : Session)
    → (length (try_lock n r s).1.sent ≤ n + length s.sent)
      × (((try_lock n r s).0 ≡ pos 0) ⊎ ((try_lock n r s).0 ≡ neg 1))
unfolding try_lock ◌>>=◌ get pure call exchange
try_lock-bound zero r s = (omega arith, inl refl)
try_lock-bound (suc n) r s = ground (arith, try_lock-bound n r (call r s).1)

-- ll_handle_locking sends at most ten requests, and returns 0 or -1, whatever the server answers.
pub ll_handle_locking-bound :
    (forkid offset size : ℕ) (s : Session)
    → let r = ll_handle_locking forkid offset size s in
      (length r.1.sent ≤ 10 + length s.sent) × ((r.0 ≡ pos 0) ⊎ (r.0 ≡ neg 1))
unfolding ll_handle_locking ◌>>=◌ get pure
ll_handle_locking-bound forkid offset size s = ground (
  arith,
  try_lock-bound max_lock_tries
      (if ltb s.av_number 30
        then lock forkid (offset % 2 ^ 32) (size % 2 ^ 32)
        else lock_ext forkid offset size)
      s,
)
