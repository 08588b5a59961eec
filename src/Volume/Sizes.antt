-- ===== src/Volume/Sizes.antt =====
-- The sizes of a volume, from what the server writes to what the system is told: ml_statfs of
-- lib/midlevel.c on afp_getvolparms_reply of lib/proto_volume.c.
use time_capsule_mount.Prelude.{
  ℕ, ◌/◌, ◌<◌, ◌^◌, ◌≡◌, refl, ap, ◌∙◌, some, List, ◌∷◌, ◌++◌, pos, ltb, ◌==◌, if◌then◌else◌,
  Bool-cases, inl, inr, arith,
}
use time_capsule_mount.Afp.Codes.{no_err}
use time_capsule_mount.Afp.Request.{get_vol_parms}
use time_capsule_mount.Afp.Session.{Session, get, pure, ◌>>=◌, exchange}
use time_capsule_mount.Dsi.Wire.{htons}
use time_capsule_mount.Reply.Volumes.{afp_getvolparms_reply}
use time_capsule_mount.Reply.Facts.{Facts, Fits, write_facts, learned}
use time_capsule_mount.Reply.VolumeRead.{volume_replies-write_facts}
use time_capsule_mount.Volume.Space.{
  StatVfs, afp_getvolparms, statfs_flags, volume_parms, ml_statfs,
}

-- The sizes in bytes that count, and the size of a block: AFP 2.x has numbers of 32 bits, and no size of
-- a block.
abbrev bytes_total : Session → Facts → ℕ
bytes_total s x = if ltb s.av_number 30 then x.bytes_total else x.ext_bytes_total

abbrev bytes_free : Session → Facts → ℕ
bytes_free s x = if ltb s.av_number 30 then x.bytes_free else x.ext_bytes_free

abbrev block_size : Session → Facts → ℕ
block_size s x =
    let known = if ltb s.av_number 30 then s.f_bsize else x.block_size in
    if known == 0 then 4096 else known

abbrev pub in_blocks : Session → Facts → StatVfs
in_blocks s x = record {
  f_blocks = bytes_total s x / block_size s x;
  f_bfree = bytes_free s x / block_size s x;
  f_bavail = bytes_free s x / block_size s x;
  f_bsize = block_size s x;
  f_namemax = 255;
}

flags_fit : (av_number : ℕ) → statfs_flags av_number < 2 ^ 16
flags_fit av_number = ground arith

-- Where the server answers the request of ml_statfs with the fields that it asks for, whose numbers
-- fit, ml_statfs returns 0 and the sizes of the server's volume in blocks: those of 64 bits with the
-- server's size of a block for AFP 3, and those of 32 bits with the size of a block that is known for
-- AFP 2.x. A block is 4096 bytes where its size is 0.
pub ml_statfs-write_facts :
    (s : Session) (x : Facts) (tail : List ℕ)
    → Fits x
    → let flags = statfs_flags s.av_number in
      let reply = s.peer (get_vol_parms flags ∷ s.sent) in
      reply.code ≡ no_err
      → reply.payload ≡ htons flags ++ write_facts flags x tail
      → (ml_statfs s).0 ≡ (pos 0, in_blocks s x)
unfolding ml_statfs afp_getvolparms ◌>>=◌ get pure exchange learned
ml_statfs-write_facts s x tail fits code payload =
    let flags = statfs_flags s.av_number in
    let v = volume_parms s in
    let body = (s.peer (get_vol_parms flags ∷ s.sent)).payload in
    let stored : afp_getvolparms_reply body v ≡ some (pos 0, learned flags x v) =
      ap (λ b. afp_getvolparms_reply b v) payload
      ∙ (volume_replies-write_facts flags x fits tail v (λ n. n) (flags_fit s.av_number)).0 in
    elim (Bool-cases (ltb s.av_number 30)) [
      | inl e ↦ rw (code, stored, e) refl
      | inr e ↦ rw (code, stored, e) refl
    ]
