-- ===== src/Volume/Space.antt =====
-- The sizes of the volume: ml_statfs of lib/midlevel.c, with the handler of the reply of
-- lib/proto_volume.c.
use time_capsule_mount.Prelude.{
  ℕ, ◌+◌, ◌/◌, true, false, Option, none, some, ℤ, pos, neg, ◌==ℤ◌, ◌==◌, ltb, if◌then◌else◌,
}
use time_capsule_mount.Afp.Codes.{no_err}
use time_capsule_mount.Afp.Errno.{eio}
use time_capsule_mount.Afp.Bits.{
  vol_bytes_free_bit, vol_bytes_total_bit, vol_ext_bytes_free_bit, vol_ext_bytes_total_bit,
  vol_block_size_bit,
}
use time_capsule_mount.Afp.Request.{get_vol_parms}
use time_capsule_mount.Afp.Session.{Session, M, get, pure, ◌>>=◌, ◌>>◌, exchange}
use time_capsule_mount.Reply.Volumes.{VolParms, afp_getvolparms_reply}

-- struct statvfs, as far as it is not set to 0
pub record StatVfs : Type 0 where
  pub f_blocks : ℕ
  pub f_bfree : ℕ
  pub f_bavail : ℕ
  pub f_bsize : ℕ
  pub f_namemax : ℕ

abbrev pub zero_vfs : StatVfs
zero_vfs = record { f_blocks = 0; f_bfree = 0; f_bavail = 0; f_bsize = 0; f_namemax = 0 }

-- The sizes of the volume, as the handler has them; its other fields are not looked at here.
abbrev pub volume_parms : Session → VolParms
volume_parms s = record {
  attributes = 0;
  signature = 0;
  creation_date = 0;
  modification_date = 0;
  backup_date = 0;
  volid = 0;
  f_bfree = s.f_bfree;
  f_blocks = s.f_blocks;
  f_bsize = s.f_bsize;
  volume_name = s.volume_name;
  volume_name_printable = s.volume_name;
}

-- The sizes that the handler has stored. The server is taken to answer with the fields that it was asked
-- for, which are all sizes: what the handler stores for other fields of a reply is left out. A reply that
-- is too short for its bitmap, behind whose end the handler reads, stores nothing here.
abbrev pub store_sizes : Option (ℤ × VolParms) → M (Unit {0})
store_sizes none s = (tt, s)
store_sizes (some (ret, v)) s =
    (tt, record s { f_bfree = v.f_bfree; f_blocks = v.f_blocks; f_bsize = v.f_bsize })

-- afp_getvolparms(vol, flags): the payload is the reply behind its DSI header, which goes to
-- afp_getvolparms_reply.
unfoldable pub afp_getvolparms : (flags : ℕ) → M ℤ
afp_getvolparms flags = do
  r ← exchange (get_vol_parms flags)
  s ← get
  store_sizes (afp_getvolparms_reply r.payload (volume_parms s))
  pure r.code

abbrev pub statfs_flags : (av_number : ℕ) → ℕ
statfs_flags av_number =
    if ltb av_number 30
    then vol_bytes_free_bit + vol_bytes_total_bit
    else vol_ext_bytes_free_bit + vol_ext_bytes_total_bit + vol_block_size_bit

abbrev pub set_block_size : ℕ → M (Unit {0})
set_block_size n s = (tt, record s { f_bsize = n })

-- What is stored in `stat`.
abbrev pub blocks_of : Session → StatVfs
blocks_of s = record {
  f_blocks = s.f_blocks / s.f_bsize;
  f_bfree = s.f_bfree / s.f_bsize;
  f_bavail = s.f_bfree / s.f_bsize;
  f_bsize = s.f_bsize;
  f_namemax = 255;
}

unfoldable pub ml_statfs : M (ℤ × StatVfs)
ml_statfs = do
  s ← get
  ret ← afp_getvolparms (statfs_flags s.av_number)
  elim (ret ==ℤ no_err) [
    | false ↦ pure (neg eio, zero_vfs)
    | true ↦ do
      v ← get
      set_block_size (if v.f_bsize == 0 then 4096 else v.f_bsize)
      w ← get
      pure (pos 0, blocks_of w)
  ]
