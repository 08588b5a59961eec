-- ===== src/Reply.antt =====
-- The parameters of a file or directory in the replies of the server: lib/proto_replyblock.c, with the
-- Pascal strings of lib/utils.c.
pub mod Pascal
pub mod Block
pub mod Fields
pub mod Values
pub mod Written
pub mod Reading
pub mod Enumerate
pub mod Entries
pub mod Handlers
pub mod Volumes
pub mod Users
pub mod Facts
pub mod VolumeBlock
pub mod VolumeRead
pub mod Parameters
