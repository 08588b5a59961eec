-- ===== src/Daemon.antt =====
-- The daemon that mounts volumes for its clients: fuse/commands.c.
pub mod Clients
pub mod Mounting
pub mod Commands
pub mod Remaining
pub mod Spelled
pub mod Unmounting
