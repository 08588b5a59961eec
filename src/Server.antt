-- ===== src/Server.antt =====
-- lib/afp.c: the list of servers, the choice of the protocol version, the login, and the volumes of a
-- server.
pub mod Registry
pub mod Chain
pub mod Removal
pub mod Adding
pub mod Versions
pub mod Picking
pub mod Login
pub mod Connect
pub mod Connecting
pub mod Joining
pub mod Volumes
pub mod Status
pub mod Opening
pub mod Rounds
pub mod Unmounting
