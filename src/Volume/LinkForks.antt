-- ===== src/Volume/LinkForks.antt =====
-- The fork that is opened to read a link: ml_readlink of lib/midlevel.c.
use time_capsule_mount.Prelude.{
  ℕ, zero, suc, ◌≡◌, refl, false, ℤ, ◌∷◌, pos, neg, ◌==ℤ◌, ==ℤ_iff, ◌⊎◌, List, CString, ◌==◌,
  ==_refl, if◌then◌else◌, Bool-cases, inl, inr, ltb,
}
use time_capsule_mount.Afp.Codes.{no_err}
use time_capsule_mount.Afp.Types.{FileInfo}
use time_capsule_mount.Afp.Request.{Request, Reply, close_fork}
use time_capsule_mount.Afp.Session.{Session, OpenFork, get, pure, ◌>>=◌, exchange}
use time_capsule_mount.Volume.Control.{call}
use time_capsule_mount.Volume.Composing.{Unicode}
use time_capsule_mount.Volume.Forks.{opened, without, add_opened_fork, remove_opened_fork}
use time_capsule_mount.Volume.Links.{link_read_errno, finish_link, read_link}

abbrev pub read_request : (av_number forkid size : ℕ) → Request
read_request av_number forkid size =
    if ltb av_number 30 then Request.read forkid 0 size else Request.read_ext forkid 0 size

neg_set : (e : ℕ) → (e == 0) ≡ false → (neg e ==ℤ pos 0) ≡ false
neg_set zero h = h
neg_set (suc e) h = refl

-- What the end of ml_readlink does: it succeeds, the fork is closed by the last request, and the list is as
-- before; or it fails, and the list has one fork more.
abbrev pub Finished :
    (address fork : ℕ) (before : List OpenFork) (sent : List Request)
    → ℤ × CString
    → Session
    → Type 0
Finished address fork before sent (ret, text) s' =
    ((ret ≡ pos 0)
      × (s'.open_forks ≡ before)
      × (s'.sent ≡ close_fork fork ∷ sent)
      × ((s'.peer s'.sent).code ≡ no_err))
    ⊎ (((ret ==ℤ pos 0) ≡ false) × (s'.open_forks ≡ opened address fork ∷ before))

finish_link-Finished :
    (u : Unicode) (address : ℕ) (fp : FileInfo) (r : Reply) (s : Session) (before : List OpenFork)
    → s.open_forks ≡ opened address fp.forkid ∷ before
    → let (o, s') = finish_link u address fp r s in Finished address fp.forkid before s.sent o s'
unfolding finish_link ◌>>=◌ get pure exchange call remove_opened_fork without
finish_link-Finished u address fp r s before e = elim (Bool-cases (link_read_errno r.code == 0)) [
  | inr f ↦ rw (f, finish_link) (inr (neg_set (link_read_errno r.code) f, e))
  | inl f ↦ elim (Bool-cases ((s.peer (close_fork fp.forkid ∷ s.sent)).code ==ℤ no_err)) [
    | inl c ↦
        rw (f, c, finish_link) (inl (refl, rw (e, ==_refl address) refl, refl, (==ℤ_iff _ _).0 c))
    | inr c ↦ rw (f, c, finish_link) (inr (refl, e))
  ]
]

-- After the fork of a link is opened, ml_readlink returns 0 only where the last request has closed the
-- fork and the server has answered that with success; then the list of open forks is as before. After
-- every error, of the read or of the closing, the list holds one fork more than before. Either is so
-- whatever the server answers.
pub read_link-Finished :
    (u : Unicode) (address : ℕ) (fp : FileInfo) (size : ℕ) (s : Session)
    → let (o, s') = read_link u address fp size s in
      Finished address fp.forkid s.open_forks
        (read_request s.av_number fp.forkid size ∷ s.sent)
        o
        s'
unfolding read_link ◌>>=◌ get exchange add_opened_fork
read_link-Finished u address fp size s =
    let request = read_request s.av_number fp.forkid size in
    let s' = record s {
      sent = request ∷ s.sent;
      open_forks = opened address fp.forkid ∷ s.open_forks;
    } in
    finish_link-Finished u address fp (s.peer (request ∷ s.sent)) s' s.open_forks refl
