-- ===== src/Loop.antt =====
-- lib/loop.c: the main loop, which waits for the sockets of the servers and reads from them.
pub mod Descriptors
pub mod Watched
pub mod Rounds
pub mod Service
pub mod Watching
pub mod Ending
