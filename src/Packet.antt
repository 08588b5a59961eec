-- ===== src/Packet.antt =====
-- The packets of the AFP requests: lib/proto_directory.c, lib/proto_files.c, lib/proto_fork.c and the
-- parts of lib/proto_desktop.c, lib/proto_volume.c and lib/proto_map.c that the volume operations call,
-- with the paths of lib/utils.c.
pub mod Paths
pub mod Build
pub mod Decode
pub mod RoundTrip
pub mod Volumes
