-- ===== src/Volume/ReadOnly/Reading.antt =====
-- Reading files, links and directories on a volume that is read only.
use time_capsule_mount.Prelude.{
  ◌%◌, ◌^◌, ℕ, zero, suc, ◌||◌, Bool, true, false, refl, List, CString, is_neg, is_set, ltb, ◌==◌,
  ◌==ℤ◌, if◌then◌else◌,
}
use time_capsule_mount.Afp.Codes.{no_err, no_more_locks, lock_err}
use time_capsule_mount.Afp.Types.{FileInfo}
use time_capsule_mount.Afp.Request.{Request, lock, lock_ext, unlock, unlock_ext, get_comment}
use time_capsule_mount.Afp.Session.{IsHarmless, exchange}
use time_capsule_mount.Volume.Lock.{
  try_lock, max_lock_tries, ll_handle_locking, ll_handle_unlocking,
}
use time_capsule_mount.Volume.Data.{ll_read}
use time_capsule_mount.Volume.Reading.{
  Reading, read_fork, read_comment, read_finderinfo, read_servericon, appledouble_read, after_meta,
  ml_read,
}
use time_capsule_mount.Volume.ReadOnly.{
  Keeps, keeps_rules, call-Keeps, get-Keeps, split-Keeps, option-Keeps, bind-Keeps, exchange-Keeps,
}
use time_capsule_mount.Volume.ReadOnly.Lookups.{ll_get_directory_entry-Keeps}

pub if-IsHarmless :
    (b : Bool) (r r' : Request) → IsHarmless r → IsHarmless r' → IsHarmless (if b then r else r')
if-IsHarmless true r r' h h' = h
if-IsHarmless false r r' h h' = h'

try_lock-Keeps : (n : ℕ) (r : Request) → IsHarmless r → Keeps (try_lock n r)
unfolding try_lock
try_lock-Keeps zero r h = search keeps_rules
try_lock-Keeps (suc n) r h = bind-Keeps _ _ (call-Keeps r h) λ rc.
    split-Keeps (rc ==ℤ no_err) _ _ (search keeps_rules) (
      split-Keeps ((rc ==ℤ no_more_locks) || (rc ==ℤ lock_err)) _ _ (try_lock-Keeps n r h)
        (search keeps_rules))

ll_handle_locking-Keeps : (forkid offset size : ℕ) → Keeps (ll_handle_locking forkid offset size)
unfolding ll_handle_locking
ll_handle_locking-Keeps forkid offset size = bind-Keeps _ _ get-Keeps λ s.
    split-Keeps s.extra_flags.no_locking _ _ (search keeps_rules) (
      try_lock-Keeps max_lock_tries _ (
        if-IsHarmless (ltb s.av_number 30) (lock forkid (offset % 2 ^ 32) (size % 2 ^ 32))
          (lock_ext forkid offset size) refl refl))

ll_handle_unlocking-Keeps :
    (forkid offset size : ℕ) → Keeps (ll_handle_unlocking forkid offset size)
unfolding ll_handle_unlocking
ll_handle_unlocking-Keeps forkid offset size = bind-Keeps _ _ get-Keeps λ s.
    split-Keeps s.extra_flags.no_locking _ _ (search keeps_rules) (
      bind-Keeps _ _
        (call-Keeps _ (
          if-IsHarmless (ltb s.av_number 30) (unlock forkid (offset % 2 ^ 32) (size % 2 ^ 32))
            (unlock_ext forkid offset size) refl refl))
        λ rc. search keeps_rules)

pub read-Keeps :
    (av_number forkid offset size : ℕ)
    → Keeps (
        exchange (
          if ltb av_number 30
          then Request.read forkid offset size
          else Request.read_ext forkid offset size))
read-Keeps av_number forkid offset size = exchange-Keeps _ (
    if-IsHarmless (ltb av_number 30) (Request.read forkid offset size)
      (Request.read_ext forkid offset size) refl refl)

ll_read-Keeps : (size offset : ℕ) (fp : FileInfo) → Keeps (ll_read size offset fp)
unfolding ll_read
ll_read-Keeps size offset fp = bind-Keeps _ _ (ll_handle_locking-Keeps fp.forkid offset size) λ l.
    split-Keeps (is_set l) _ _ (search keeps_rules) (
      bind-Keeps _ _ get-Keeps λ s.
        bind-Keeps _ _
          (exchange-Keeps _ (
            if-IsHarmless (ltb s.av_number 30)
              (Request.read fp.forkid (offset % 2 ^ 32) (size % 2 ^ 32))
              (Request.read_ext fp.forkid offset size) refl refl))
          λ r.
            bind-Keeps _ _ (ll_handle_unlocking-Keeps fp.forkid offset size)
              λ u. search keeps_rules)

read_fork-Keeps :
    (buf : List ℕ) (size offset : ℕ) (fp : FileInfo) → Keeps (read_fork buf size offset fp)
unfolding read_fork
read_fork-Keeps buf size offset fp = search (keeps_rules, ll_read-Keeps)

read_comment-Keeps : (before : Reading) → Keeps (read_comment before)
unfolding read_comment
read_comment-Keeps before = split-Keeps before.file.eof _ _ (search keeps_rules) (
    bind-Keeps _ _ (exchange-Keeps (get_comment before.file.did before.file.basename) refl)
      λ r. search keeps_rules)

read_finderinfo-Keeps :
    (buf : List ℕ) (size offset : ℕ) (fp : FileInfo) → Keeps (read_finderinfo buf size offset fp)
unfolding read_finderinfo
read_finderinfo-Keeps buf size offset fp = split-Keeps (ltb 32 offset) _ _ (search keeps_rules) (
    bind-Keeps _ _ (ll_get_directory_entry-Keeps _ _ _ _ _)
      λ p. split-Keeps (is_neg p.0) _ _ (search keeps_rules) (read_comment-Keeps _))

read_servericon-Keeps :
    (buf : List ℕ) (size offset : ℕ) (fp : FileInfo) → Keeps (read_servericon buf size offset fp)
unfolding read_servericon
read_servericon-Keeps buf size offset fp = search keeps_rules

appledouble_read-Keeps :
    (buf : List ℕ) (size offset : ℕ) (fp : FileInfo) → Keeps (appledouble_read buf size offset fp)
unfolding appledouble_read
appledouble_read-Keeps buf size offset fp =
    search
      (
        keeps_rules, read_fork-Keeps, read_comment-Keeps, read_finderinfo-Keeps,
        read_servericon-Keeps,
      )
      depth 9

after_meta-Keeps : (size offset : ℕ) (r : Reading) → Keeps (after_meta size offset r)
unfolding after_meta
after_meta-Keeps size offset r = search (keeps_rules, read_fork-Keeps)

pub ml_read-Keeps :
    (buf : List ℕ) (path : CString) (size offset : ℕ) (fp : FileInfo)
    → Keeps (ml_read buf path size offset fp)
unfolding ml_read
ml_read-Keeps buf path size offset fp = bind-Keeps _ _ get-Keeps λ s.
    option-Keeps _ _ _ (search keeps_rules) λ c.
      split-Keeps (fp.resource == 0) _ _ (read_fork-Keeps buf size offset fp) (
        bind-Keeps _ _ (appledouble_read-Keeps buf size offset fp)
          λ r. after_meta-Keeps size offset r)
