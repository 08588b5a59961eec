-- ===== src/Handshake.antt =====
-- The requests and replies of a session: lib/proto_login.c, lib/proto_session.c, lib/proto_server.c.
pub mod Requests
pub mod Replies
pub mod Announced
pub mod Tokens
pub mod Received
pub mod RoundTrip
