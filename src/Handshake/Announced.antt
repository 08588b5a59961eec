-- ===== src/Handshake/Announced.antt =====
-- afp_getsrvrparms_reply of lib/proto_server.c reads what a server announces.
use time_capsule_mount.Prelude.{
  ℕ, suc, ◌^◌, ◌<◌, ◌≡◌, refl, ap, ◌∙◌, some, List, [], ◌∷◌, ◌++◌, append_assoc, CString, pos, map,
  length, ltb, if◌then◌else◌, All, arith,
}
use time_capsule_mount.Dsi.Wire.{htonl}
use time_capsule_mount.Reply.Block.{date_to_unix}
use time_capsule_mount.Reply.Fields.{ntohl-htonl}
use time_capsule_mount.Reply.Pascal.{copy_to_pascal, copy_from_pascal-copy_to_pascal}
use time_capsule_mount.Server.Picking.{IsName, drop-pascal}
use time_capsule_mount.Handshake.Replies.{
  Volume, Parms, volume_name_len, parse_volumes, afp_getsrvrparms_reply,
}

-- The flags and the name of each volume.
unfoldable pub write_volumes : List (ℕ × CString) → List ℕ
write_volumes [] = []
write_volumes ((flags, name) ∷ vs) = flags ∷ (copy_to_pascal name ++ write_volumes vs)

-- The time of the server, and its volumes.
unfoldable pub write_parms : (time : ℕ) → List (ℕ × CString) → List ℕ
unfolding write_volumes
write_parms time vs = htonl time ++ length vs ∷ write_volumes vs

module _ (av_number : ℕ) (to_utf8pre : CString → CString) where
  abbrev pub volume_of : ℕ × CString → Volume
  volume_of v = record {
    flags = v.0;
    volume_name = v.1;
    volume_name_printable = if ltb av_number 30 then v.1 else to_utf8pre v.1;
  }

  parse_volumes-write_volumes :
      (vs : List (ℕ × CString)) (rest : List ℕ)
      → All (λ v. IsName v.1) vs
      → parse_volumes av_number to_utf8pre (length vs) (write_volumes vs ++ rest)
        ≡ some (map volume_of vs)
  unfolding parse_volumes write_volumes
  parse_volumes-write_volumes [] rest h = refl
  parse_volumes-write_volumes ((flags, name) ∷ vs) rest h =
      let p : List ℕ = write_volumes vs ++ rest in
      let read =
        copy_from_pascal-copy_to_pascal name p volume_name_len h.0.0 (omega (arith, h.0.1))
          (omega (arith, h.0.1)) in
      let left = drop-pascal name p (omega (arith, h.0.1)) in
      ap (λ q. parse_volumes av_number to_utf8pre (suc (length vs)) (flags ∷ q))
        (append_assoc (copy_to_pascal name) (write_volumes vs) rest)
      ∙ rw (read, parse_volumes) (rw (left, parse_volumes-write_volumes vs rest h.1) refl)

  -- Where each name has fewer than 33 bytes and no terminator, the time and the volumes that a server
  -- announces are stored in their order, whatever follows them: each with its flags, its name as it was
  -- sent, and the name that is shown, which is the same for AFP 2.x, and the name as
  -- convert_utf8dec_to_utf8pre gives it from 3.0 on.
  pub afp_getsrvrparms_reply-write_parms :
      (time : ℕ) (vs : List (ℕ × CString)) (rest : List ℕ) (old : Parms)
      → time < 2 ^ 32
      → All (λ v. IsName v.1) vs
      → afp_getsrvrparms_reply av_number to_utf8pre (write_parms time vs ++ rest) old
        ≡ some (pos 0, record { connect_time = date_to_unix time; volumes = map volume_of vs })
  unfolding afp_getsrvrparms_reply write_parms htonl
  afp_getsrvrparms_reply-write_parms time vs rest old h names =
      rw (parse_volumes-write_volumes vs rest names, ntohl-htonl time h) refl
