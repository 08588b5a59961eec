-- ===== src/Fuse.antt =====
-- What FUSE calls: fuse/fuse_int.c.
pub mod Operations
pub mod Read
pub mod Answers
pub mod Rounds
pub mod Serving
pub mod Unread
pub mod Opening
