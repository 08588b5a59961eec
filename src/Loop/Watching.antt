-- ===== src/Loop/Watching.antt =====
-- The servers of lib/loop.c and the descriptors that the loop waits for: what process_server_fds and
-- loop_disconnect keep.
use time_capsule_mount.Prelude.{
  ℕ, ◌≡◌, ◌≢◌, refl, sym, ap, ap₂, Bool-cases, inl, inr, subst, ◌∙◌, Bool, true, false, List, [],
  ◌∷◌, if◌then◌else◌, arith, All,
}
use time_capsule_mount.Dsi.Receive.{Read, dsi_recv}
use time_capsule_mount.Loop.Descriptors.{Descriptors, rm_fd}
use time_capsule_mount.Loop.Rounds.{
  Server, Service, Loop, after_recv, has_closed, serve, process_server_fds, Wake, Next,
  make_ending_thread, woken, round,
}
use time_capsule_mount.Loop.Service.{IsConnected, Kept, same, gone, Kept-trans, after_recv-Kept}
use time_capsule_mount.Loop.Watched.{IsBound, rm_fd-rds, rm_fd-IsBound}

-- No connected server has this descriptor.
abbrev IsFree : ℕ → List Server → Type 0
IsFree fd = All λ s. IsConnected s → s.fd ≢ fd

-- Connected servers have descriptors of their own.
abbrev IsApart : List Server → Type 0
IsApart [] = Unit
IsApart (s ∷ ss) = (IsConnected s → IsFree s.fd ss) × IsApart ss

-- The descriptors of the connected servers are set.
abbrev IsWatched : (ℕ → Bool) → List Server → Type 0
IsWatched rds [] = Unit
IsWatched rds (s ∷ ss) = (IsConnected s → rds s.fd ≡ true) × IsWatched rds ss

-- The loop waits for the descriptor of every connected server, no two of which share one.
pub record IsWatching (l : Loop) : Type 0 where
  pub bound : IsBound l.descriptors
  pub apart : IsApart l.servers
  pub watched : IsWatched l.descriptors.rds l.servers

rm_fd-IsWatched :
    (fd : ℕ) (d : Descriptors) (ss : List Server)
    → IsFree fd ss
    → IsWatched d.rds ss
    → IsWatched (rm_fd fd d).rds ss
rm_fd-IsWatched fd d [] f h = tt
rm_fd-IsWatched fd d (s ∷ ss) f h =
    (λ c. ground (arith, rm_fd-rds fd d s.fd, f.0 c, h.0 c), rm_fd-IsWatched fd d ss f.1 h.1)

-- What serving one server keeps of all this.
module _ (s s' : Server) (l l' : Loop) where
  Kept-IsBound : Kept s l s' l' → IsBound l.descriptors → IsBound l'.descriptors
  Kept-IsBound (same f c d e) b = subst IsBound (sym d) b
  Kept-IsBound (gone c g d e) b = subst IsBound (sym d) (rm_fd-IsBound s.fd l.descriptors b)

  Kept-IsFree :
      (fd : ℕ) → Kept s l s' l' → (IsConnected s → s.fd ≢ fd) → IsConnected s' → s'.fd ≢ fd
  Kept-IsFree fd (same f c d e) free con at = free (sym c ∙ con) (sym f ∙ at)
  Kept-IsFree fd (gone c g d e) free con at = absurd (cc)

  Kept-rds :
      (fd : ℕ)
      → Kept s l s' l'
      → (IsConnected s → s.fd ≢ fd)
      → l'.descriptors.rds fd ≡ l.descriptors.rds fd
  Kept-rds fd (same f c d e) free = ap (λ x. x.rds fd) d
  Kept-rds fd (gone c g d e) free =
      ap (λ x. x.rds fd) d ∙ ground (arith, rm_fd-rds s.fd l.descriptors fd, free c)

  Kept-apart :
      (ss : List Server)
      → Kept s l s' l'
      → (IsConnected s → IsFree s.fd ss)
      → IsConnected s'
      → IsFree s'.fd ss
  Kept-apart ss (same f c d e) free con = subst (λ fd. IsFree fd ss) (sym f) (free (sym c ∙ con))
  Kept-apart ss (gone c g d e) free con = absurd (cc)

  Kept-IsWatched :
      (ss : List Server)
      → Kept s l s' l'
      → (IsConnected s → IsFree s.fd ss)
      → IsWatched l.descriptors.rds (s ∷ ss)
      → IsWatched l'.descriptors.rds (s' ∷ ss)
  Kept-IsWatched ss (same f c d e) free h = (
    λ con. ap₂ (λ x fd. x.rds fd) d f ∙ h.0 (sym c ∙ con),
    subst (λ x. IsWatched x.rds ss) (sym d) h.1,
  )
  Kept-IsWatched ss (gone c g d e) free h = (
    λ con. absurd (cc),
    subst (λ x. IsWatched x.rds ss) (sym d) (rm_fd-IsWatched s.fd l.descriptors ss (free c) h.1),
  )

module _ (set : ℕ → Bool) (read : Read) where
  abbrev served : Server → Loop → Service × Server × Loop
  served s l =
      let r = dsi_recv read s.link in
      after_recv r.0 (has_closed s.link r.1) (record s { link = r.1 }) l

  served-Kept : (s : Server) (l : Loop) → Kept s l (served s l).1 (served s l).2
  served-Kept s l =
      let r = dsi_recv read s.link in
      let s' = record s { link = r.1 } in
      Kept-trans s s' (served s l).1 l l (served s l).2 (same refl refl refl (refl, refl, refl))
        (after_recv-Kept r.0 (has_closed s.link r.1) s' l)

  serve-IsBound :
      (ss : List Server) (l : Loop)
      → IsBound l.descriptors
      → IsBound (serve set read ss l).2.descriptors
  unfolding serve
  serve-IsBound [] l b = b
  serve-IsBound (s ∷ ss) l b = elim (Bool-cases (set s.fd)) [
    | inl e ↦ rw (e, serve) (Kept-IsBound s (served s l).1 l (served s l).2 (served-Kept s l) b)
    | inr e ↦ rw (e, serve) (serve-IsBound ss l b)
  ]

  serve-IsFree :
      (fd : ℕ) (ss : List Server) (l : Loop)
      → IsFree fd ss
      → IsFree fd (serve set read ss l).1
        × ((serve set read ss l).2.descriptors.rds fd ≡ l.descriptors.rds fd)
  unfolding serve
  serve-IsFree fd [] l f = (tt, refl)
  serve-IsFree fd (s ∷ ss) l f = elim (Bool-cases (set s.fd)) [
    | inl e ↦
        let k = served-Kept s l in
        rw (e, serve)
          (
            (Kept-IsFree s (served s l).1 l (served s l).2 fd k f.0, f.1),
            Kept-rds s (served s l).1 l (served s l).2 fd k f.0,
          )
    | inr e ↦ let (free, rds) = serve-IsFree fd ss l f.1 in rw (e, serve) ((f.0, free), rds)
  ]

  serve-IsApart : (ss : List Server) (l : Loop) → IsApart ss → IsApart (serve set read ss l).1
  unfolding serve
  serve-IsApart [] l a = tt
  serve-IsApart (s ∷ ss) l a = elim (Bool-cases (set s.fd)) [
    | inl e ↦
        rw (e, serve) (Kept-apart s (served s l).1 l (served s l).2 ss (served-Kept s l) a.0, a.1)
    | inr e ↦ rw (e, serve) ((λ c. (serve-IsFree s.fd ss l (a.0 c)).0), serve-IsApart ss l a.1)
  ]

  serve-IsWatched :
      (ss : List Server) (l : Loop)
      → IsApart ss
      → IsWatched l.descriptors.rds ss
      → IsWatched (serve set read ss l).2.descriptors.rds (serve set read ss l).1
  unfolding serve
  serve-IsWatched [] l a h = tt
  serve-IsWatched (s ∷ ss) l a h = elim (Bool-cases (set s.fd)) [
    | inl e ↦
        rw (e, serve) (Kept-IsWatched s (served s l).1 l (served s l).2 ss (served-Kept s l) a.0 h)
    | inr e ↦
        rw (e, serve)
          ((λ c. (serve-IsFree s.fd ss l (a.0 c)).1 ∙ h.0 c), serve-IsWatched ss l a.1 h.1)
  ]

process-IsWatching :
    (set : ℕ → Bool) (read : Read) (l : Loop)
    → IsWatching l
    → IsWatching (process_server_fds set read l).1
unfolding process_server_fds
process-IsWatching set read l w = record {
  bound = serve-IsBound set read l.servers l w.bound;
  apart = serve-IsApart set read l.servers l w.apart;
  watched = serve-IsWatched set read l.servers l w.apart w.watched;
}

if-IsWatching :
    (b : Bool) (l l' : Loop) → IsWatching l → IsWatching l' → IsWatching (if b then l else l')
if-IsWatching true l l' h h' = h
if-IsWatching false l l' h h' = h'

make_ending_thread-IsWatching : (l : Loop) → IsWatching l → IsWatching (make_ending_thread l)
unfolding make_ending_thread
make_ending_thread-IsWatching l h =
    if-IsWatching _ _ _ (record { bound = h.bound; apart = h.apart; watched = h.watched }) h

abbrev Holds : Next → Type 0
Holds (Next.goes_on l) = IsWatching l
Holds (Next.leaves l) = Unit
Holds Next.undefined = Unit

Holds-woken : (w : Wake) (l : Loop) → IsWatching l → Holds (woken w l)
unfolding woken make_ending_thread
Holds-woken Wake.interrupted l h = make_ending_thread-IsWatching l h
Holds-woken Wake.bad_descriptor l h =
    if-IsWatching _ _ _ h (record { bound = h.bound; apart = h.apart; watched = h.watched })
Holds-woken Wake.other_error l h = h
Holds-woken Wake.timed_out l h =
    if-IsWatching _ _ _ (record { bound = h.bound; apart = h.apart; watched = h.watched })
      (record { bound = h.bound; apart = h.apart; watched = h.watched })
Holds-woken (Wake.ready set read) l h =
    let start = record l { fderrors = 0 } in
    ground (
      arith,
      process-IsWatching set read start
          (record { bound = h.bound; apart = h.apart; watched = h.watched }),
    )

-- Whatever pselect and the sockets give, a round of the main loop that goes on keeps this: every
-- descriptor that is set is below max_fd, and the descriptor of every connected server is set and is
-- that of no other.
pub round-IsWatching :
    (w : Wake) (l l' : Loop) → IsWatching l → round w l ≡ Next.goes_on l' → IsWatching l'
unfolding round woken make_ending_thread
round-IsWatching w l l' h e =
    subst Holds e
      (ground (arith, Holds-woken w (make_ending_thread l) (make_ending_thread-IsWatching l h)))
