-- ===== src/Did.antt =====
-- lib/did.c: the cache of directory ids, and the search for the directory that holds a path.
pub mod Cache
pub mod Freshness
pub mod Newest
pub mod Lookup
pub mod Paths
pub mod Resolve
pub mod Steps
pub mod Correct
