-- ===== src/Volume.antt =====
-- The operations on a mounted volume: lib/codepage.c, lib/utils.c, lib/users.c, lib/forklist.c,
-- lib/lowlevel.c, lib/resource.c and lib/midlevel.c.
pub mod Control
pub mod Names
pub mod Users
pub mod Forks
pub mod Lock
pub mod Meta
pub mod Attr
pub mod Create
pub mod Data
pub mod Open
pub mod Remove
pub mod Owner
pub mod Truncate
pub mod Stats
pub mod ReadOnly
pub mod Writing
pub mod Bounds
pub mod Spelling
pub mod Mapping
pub mod Closing
pub mod MetaPaths
pub mod Tries
pub mod Listing
pub mod Batches
pub mod Reading
pub mod Composing
pub mod Links
pub mod Space
pub mod Readdir
pub mod Sizes
pub mod LinkForks
