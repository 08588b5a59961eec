-- ===== src/Tests/Requests.antt =====
-- The request packets at concrete inputs.
use time_capsule_mount.Prelude.{◌≡◌, refl, inl, some, codes, arith}
use time_capsule_mount.Afp.Request.{create_dir}
use time_capsule_mount.Packet.Paths.{IsPath, Sent, path_bytes-Sent}
use time_capsule_mount.Packet.Build.{Ids}
use time_capsule_mount.Packet.RoundTrip.{AreIds, received, received-packet}

abbrev ids : Ids
ids = record { volid = 1; dtrefnum = 2; path_encoding = 3 }

ids-AreIds : AreIds ids
ids-AreIds = record { volid = omega arith; dtrefnum = omega arith }

name-IsPath : IsPath 3 (codes "a/b")
name-IsPath = record { known = inl refl; string = ground arith; fits = omega arith }

path_bytes-Sent_example : Sent 3 (codes "a/b")
path_bytes-Sent_example = path_bytes-Sent 3 (codes "a/b") name-IsPath

received-packet_example :
    received ids (create_dir 2 (codes "a/b")) ≡ some (1, create_dir 2 (codes "a/b"))
received-packet_example =
    received-packet ids (create_dir 2 (codes "a/b")) ids-AreIds (omega arith, name-IsPath)
