-- ===== src/Url.antt =====
-- lib/afp_url.c: afp:// addresses, with the names of the authentication methods in lib/uams_def.c.
pub mod Strings
pub mod Uams
pub mod Escapes
pub mod Parse
pub mod Splitting
pub mod Pieces
pub mod RoundTrip
pub mod Endless
