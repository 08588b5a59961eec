-- ===== src/Loop/Service.antt =====
-- What process_server_fds of lib/loop.c does to the server that it serves, and to the descriptors.
use time_capsule_mount.Prelude.{
  ◌≡◌, refl, sym, ap, ◌∙◌, Bool, true, false, ◌⊎◌, inl, inr, arith, ℤ, neg, ◌==ℤ◌, is_set,
  Bool-cases,
}
use time_capsule_mount.Dsi.Receive.{Outcome, returned, overrun, null_pointer}
use time_capsule_mount.Server.Volumes.{afp_unmount_all_volumes}
use time_capsule_mount.Loop.Descriptors.{rm_fd}
use time_capsule_mount.Loop.Rounds.{
  Server, ConnectState, Loop, loop_disconnect, rm_fd_and_signal, dsi_incoming_closesession,
  end_service, after_recv,
}

abbrev pub IsConnected : Server → Type 0
IsConnected s = s.connect_state ≡ ConnectState.connected

-- The fields that end the loop are the same.
abbrev pub EndsAlike : Loop → Loop → Type 0
EndsAlike l l' =
    (l'.exit_program ≡ l.exit_program)
    × (l'.ending ≡ l.ending)
    × (l'.ending_threads ≡ l.ending_threads)

-- The server and the descriptors are as before; or the server was connected, is not any more, and its
-- descriptor is not waited for.
pub data Kept (s : Server) (l : Loop) (s' : Server) (l' : Loop) : Type 0 where
  same :
      s'.fd ≡ s.fd
      → s'.connect_state ≡ s.connect_state
      → l'.descriptors ≡ l.descriptors
      → EndsAlike l l'
      → Kept s l s' l'
  gone :
      IsConnected s
      → s'.connect_state ≡ ConnectState.disconnected
      → l'.descriptors ≡ rm_fd s.fd l.descriptors
      → EndsAlike l l'
      → Kept s l s' l'

pub Kept-EndsAlike : (s s' : Server) (l l' : Loop) → Kept s l s' l' → EndsAlike l l'
Kept-EndsAlike s s' l l' (same f c d e) = e
Kept-EndsAlike s s' l l' (gone c g d e) = e

state-cases : (c : ConnectState) → (c ≡ ConnectState.connected) ⊎ (c ≡ ConnectState.disconnected)
state-cases ConnectState.connected = inl refl
state-cases ConnectState.disconnected = inr refl

not_both : (c : ConnectState) → c ≡ ConnectState.connected → c ≡ ConnectState.disconnected → ⊥
not_both c e e' = cc

connected-disconnect :
    (s : Server) (l : Loop)
    → IsConnected s
    → let d = loop_disconnect s l in
      (d.0.connect_state ≡ ConnectState.disconnected)
      × (d.1.descriptors ≡ rm_fd s.fd l.descriptors)
      × EndsAlike l d.1
unfolding loop_disconnect rm_fd_and_signal
connected-disconnect s l e = ground (arith, e)

disconnected-disconnect :
    (s : Server) (l : Loop)
    → s.connect_state ≡ ConnectState.disconnected
    → loop_disconnect s l ≡ (s, l)
unfolding loop_disconnect
disconnected-disconnect s l e = ground (arith, e)

alike : (l : Loop) → EndsAlike l l
alike l = (refl, refl, refl)

loop_disconnect-Kept :
    (s : Server) (l : Loop) → Kept s l (loop_disconnect s l).0 (loop_disconnect s l).1
loop_disconnect-Kept s l = elim (state-cases s.connect_state) [
  | inl e ↦ let (c, d, x) = connected-disconnect s l e in gone e c d x
  | inr e ↦ rw (disconnected-disconnect s l e) (same refl refl refl (alike l))
]

end_service-Kept :
    (ret : ℤ) (s : Server) (l : Loop) → Kept s l (end_service ret s l).1 (end_service ret s l).2
unfolding end_service
end_service-Kept ret s l = elim (Bool-cases (ret ==ℤ neg 1)) [
  | inl e ↦ rw (e, end_service) (loop_disconnect-Kept s l)
  | inr e ↦ rw (e, end_service) (same refl refl refl (alike l))
]

alike_trans : (a b c : Loop) → EndsAlike a b → EndsAlike b c → EndsAlike a c
alike_trans a b c h k = (k.0 ∙ h.0, k.1 ∙ h.1, k.2 ∙ h.2)

pub Kept-trans : (s t u : Server) (l m n : Loop) → Kept s l t m → Kept t m u n → Kept s l u n
Kept-trans s t u l m n (same f c d e) (same f' c' d' e') =
    same (f' ∙ f) (c' ∙ c) (d' ∙ d) (alike_trans l m n e e')
Kept-trans s t u l m n (same f c d e) (gone c' g d' e') =
    gone (sym c ∙ c') g (d' ∙ ap (λ fd. rm_fd fd m.descriptors) f ∙ ap (rm_fd s.fd) d)
      (alike_trans l m n e e')
Kept-trans s t u l m n (gone c g d e) (same f' c' d' e') =
    gone c (c' ∙ g) (d' ∙ d) (alike_trans l m n e e')
Kept-trans s t u l m n (gone c g d e) (gone c' g' d' e') = absurd (not_both t.connect_state c' g)

closed-Kept :
    (s : Server) (l : Loop) (ret : ℤ)
    → Kept s l (after_recv (returned ret) true s l).1 (after_recv (returned ret) true s l).2
unfolding after_recv dsi_incoming_closesession
closed-Kept s l ret = elim (Bool-cases (is_set (afp_unmount_all_volumes s.mounts).0)) [
  | inl e ↦ rw (e, after_recv) (same refl refl refl (alike l))
  | inr e ↦
      let s' = record s { mounts = (afp_unmount_all_volumes s.mounts).1 } in
      let d = loop_disconnect s' l in
      rw (e, after_recv)
        (Kept-trans s d.0 (end_service ret d.0 d.1).1 l d.1 (end_service ret d.0 d.1).2
          (Kept-trans s s' d.0 l l d.1 (same refl refl refl (alike l)) (loop_disconnect-Kept s' l))
          (end_service-Kept ret d.0 d.1))
]

pub after_recv-Kept :
    (o : Outcome) (closing : Bool) (s : Server) (l : Loop)
    → Kept s l (after_recv o closing s l).1 (after_recv o closing s l).2
unfolding after_recv
after_recv-Kept (returned ret) false s l = end_service-Kept ret s l
after_recv-Kept (returned ret) true s l = closed-Kept s l ret
after_recv-Kept overrun closing s l = same refl refl refl (alike l)
after_recv-Kept null_pointer closing s l = same refl refl refl (alike l)
