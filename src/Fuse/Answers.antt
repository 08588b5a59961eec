-- ===== src/Fuse/Answers.antt =====
-- The replies of a server to the reads of a fork: ll_read of lib/lowlevel.c and ml_read of
-- lib/midlevel.c where each is answered alike, after any requests.
use time_capsule_mount.Prelude.{
  ℕ, ◌%◌, ◌^◌, ◌<◌, arith, take_all, ◌≤◌, ◌≡◌, refl, ap, some, List, [], ◌∷◌, CString, pos, ◌==ℤ◌,
  ◌==◌, ltb, if◌then◌else◌, length, Bool-cases, inl, inr,
}
use time_capsule_mount.Afp.Codes.{no_err, eof_err, access_denied, lock_err, misc_err, param_err}
use time_capsule_mount.Afp.Errno.{eacces, ebusy, eio}
use time_capsule_mount.Afp.Types.{FileInfo}
use time_capsule_mount.Afp.Request.{Request, Reply, lock, lock_ext, unlock, unlock_ext}
use time_capsule_mount.Afp.Session.{Session, get, pure, ◌>>=◌, exchange}
use time_capsule_mount.Volume.Control.{switch, call, from_option}
use time_capsule_mount.Volume.Names.{convert_path_to_afp, max_path}
use time_capsule_mount.Volume.Lock.{ll_handle_locking, ll_handle_unlocking, try_lock}
use Prim.Native.Nat.{min}
use time_capsule_mount.Volume.Data.{int32, ReadResult, read_fails, ll_read, patch}
use time_capsule_mount.Volume.Reading.{Reading, read_fork, ml_read}

-- The requests for a range. With AFP 2.x its numbers have 32 bits.
abbrev pub lock_request : (av_number forkid offset count : ℕ) → Request
lock_request av_number forkid offset count =
    if ltb av_number 30
    then lock forkid (offset % 2 ^ 32) (count % 2 ^ 32)
    else lock_ext forkid offset count

abbrev pub unlock_request : (av_number forkid offset count : ℕ) → Request
unlock_request av_number forkid offset count =
    if ltb av_number 30
    then unlock forkid (offset % 2 ^ 32) (count % 2 ^ 32)
    else unlock_ext forkid offset count

abbrev pub read_request : (av_number forkid offset count : ℕ) → Request
read_request av_number forkid offset count =
    if ltb av_number 30
    then Request.read forkid (offset % 2 ^ 32) (count % 2 ^ 32)
    else Request.read_ext forkid offset count

-- The server of the session gives every lock of the fork, and takes it back.
pub record Locks (s : Session) (forkid : ℕ) : Type 0 where
  pub locks :
      (sent : List Request) (offset count : ℕ)
      → (s.peer (lock_request s.av_number forkid offset count ∷ sent)).code ≡ no_err
  pub unlocks :
      (sent : List Request) (offset count : ℕ)
      → (s.peer (unlock_request s.av_number forkid offset count ∷ sent)).code ≡ no_err

-- Each reply to a read of the fork that ll_read sends for a range within reach has this property.
abbrev pub Replies :
    Session
    → (forkid : ℕ) → ((offset count : ℕ) → Type 0)
    → ((offset count : ℕ) → Reply → Type 0)
    → Type 0
Replies s forkid Reach P =
    (sent : List Request) (offset count : ℕ)
    → 1 ≤ count
    → Reach offset count
    → P offset count (s.peer (read_request s.av_number forkid offset count ∷ sent))

-- The session, with these requests sent.
abbrev pub asked : Session → List Request → Session
asked s q = record s { sent = q }

-- What ll_read and ml_read give where no case of the switch on the result matches.
abbrev pub whole : Reply → ReadResult
whole r = record {
  returns = pos (length r.payload);
  bytes = r.payload;
  at_eof = r.code ==ℤ eof_err;
}

abbrev pub reading : List ℕ → FileInfo → Reply → Reading
reading buf fp r = record {
  returns = pos (length r.payload);
  buffer = patch buf 0 r.payload;
  amount = 0;
  at_eof = r.code ==ℤ eof_err;
  file = fp;
}

-- No case of the switch matches.
abbrev pub Passes : Reply → Type 0
Passes r =
    switch r.code
      ((access_denied, read_fails eacces)
        ∷ (lock_err, read_fails ebusy)
        ∷ (misc_err, read_fails eio)
        ∷ (param_err, read_fails eio)
        ∷ [])
      (whole r)
    ≡ whole r

-- All of the data fits the buffer that the receiver is given, and its length fits an int.
abbrev pub FitsBuffer : (rx_quantum count : ℕ) → Reply → Type 0
FitsBuffer rx_quantum count r =
    (length r.payload ≤ min rx_quantum count) × (length r.payload < 2 ^ 31)

pub int32-small : (n : ℕ) → n < 2 ^ 31 → int32 n ≡ pos n
int32-small n h = ground arith

module _ (s : Session) (fp : FileInfo) (grants : Locks s fp.forkid)
    (Reach : (offset count : ℕ) → Type 0) (P : (offset count : ℕ) → Reply → Type 0)
    (passes : (offset count : ℕ) (r : Reply) → P offset count r → Passes r)
    (fits : (offset count : ℕ) (r : Reply)
      → Reach offset count
      → P offset count r
      → FitsBuffer s.rx_quantum count r)
    (replies : Replies s fp.forkid Reach P) where
  ll_read-asked :
      (size offset : ℕ) (q : List Request)
      → 1 ≤ size
      → Reach offset size
      → (r : Reply) × P offset size r
        × (q' : List Request) × (ll_read size offset fp (asked s q) ≡ (whole r, asked s q'))
  unfolding ll_read ll_handle_locking ll_handle_unlocking try_lock ◌>>=◌ get pure call exchange
  ll_read-asked size offset q h reach = elim (Bool-cases s.extra_flags.no_locking) [
    | inl e ↦
        let sent = read_request s.av_number fp.forkid offset size ∷ q in
        let answer = replies q offset size h reach in
        let (fit, small) = fits offset size (s.peer sent) reach answer in
        let all = take_all (min s.rx_quantum size) (s.peer sent).payload fit in
        let int = int32-small (length (s.peer sent).payload) small in
        (
          s.peer sent,
          answer,
          sent,
          rw (e, all) (rw int (rw (passes offset size (s.peer sent) answer) refl)),
        )
    | inr e ↦
        let q1 = lock_request s.av_number fp.forkid offset size ∷ q in
        let sent = read_request s.av_number fp.forkid offset size ∷ q1 in
        let answer = replies q1 offset size h reach in
        let (fit, small) = fits offset size (s.peer sent) reach answer in
        let all = take_all (min s.rx_quantum size) (s.peer sent).payload fit in
        let int = int32-small (length (s.peer sent).payload) small in
        (
          s.peer sent,
          answer,
          unlock_request s.av_number fp.forkid offset size ∷ sent,
          rw (e, grants.locks q offset size, grants.unlocks sent offset size, all)
              (rw int (rw (passes offset size (s.peer sent) answer) refl)),
        )
  ]

  -- A plain file.
  pub ml_read-asked :
      (path converted : CString)
      → fp.resource ≡ 0
      → convert_path_to_afp s.path_encoding path max_path ≡ some converted
      → (buf : List ℕ) (size offset : ℕ) (q : List Request) → 1 ≤ size
      → Reach offset size
      → (r : Reply) × P offset size r
        × (q' : List Request) × (ml_read buf path size offset fp (asked s q)
            ≡ (reading buf fp r, asked s q'))
  unfolding ml_read read_fork from_option ◌>>=◌ get pure
  ml_read-asked path converted plain converts buf size offset q h reach =
      let (r, answer, q', e) = ll_read-asked size offset q h reach in
      (r, answer, q', rw (converts, ap (λ k. k == 0) plain, e) refl)
