-- ===== src/Lib.antt =====
-- The AFP client of afpfs-ng, with which a Time Capsule is mounted. A path that is named here or in
-- the other files, such as lib/did.c, stands below the folder afpfs-ng of the repository.
--
-- The program talks AFP to a file server, over DSI packets on a TCP connection. FUSE calls the ml_…
-- operations of lib/midlevel.c; they use lib/lowlevel.c and lib/resource.c, which find files by
-- directory ids (lib/did.c) and call one builder for each AFP request (lib/proto_*.c); a builder
-- queues its request and sends it (lib/dsi.c), and the main loop receives the reply.
--
-- The parts, and the files that model them:
--   Prelude       lists, C strings and integers, Boolean tests.
--   Afp           the data of include/afpfs-ng/afp.h and afp_protocol.h: result codes, errno values,
--                 bitmaps, structs; a request for each builder of lib/proto_*.c with the reply to it;
--                 the session, which is struct afp_volume with its server, and operations on it.
--   Did           lib/did.c: Cache has the list of directory ids, Lookup has get_dirid and is_dir.
--   Dsi           lib/dsi.c: Wire has the packet header, Queue the requests that wait for a reply,
--                 Receive dsi_recv, with a label of the source to a function, Sender dsi_send
--                 behind the queueing, with the receiver as another thread.
--   Loop          lib/loop.c: Descriptors has the set that pselect waits for, Rounds a round of
--                 afp_main_loop with the functions that start and end it, and what the end of a
--                 session in lib/dsi.c does to a server.
--   Url           lib/afp_url.c: Parse has the parser, Escapes the doubled characters in it, Uams the
--                 names of lib/uams_def.c, and pick_uam of lib/afp.c.
--   Reply         lib/proto_replyblock.c: Block has the parser, Pascal the strings of lib/utils.c, Values
--                 and Written what a server writes; Enumerate and Handlers are the handlers
--                 of replies in lib/proto_*.c, Volumes those of lib/proto_volume.c with Facts for
--                 what a server writes, Users those of lib/proto_map.c.
--   Packet        the packets of lib/proto_*.c: Paths has the paths of lib/utils.c in them, Build a builder
--                 to a function, Decode what a server reads; Volumes opens and closes a volume.
--   Volume        the operations on a volume. Names is lib/codepage.c and invalid_filename of
--                 lib/utils.c; Users lib/users.c; Forks lib/forklist.c; Lock, Attr, Listing, Open and
--                 Data lib/lowlevel.c with the operations of lib/midlevel.c and lib/resource.c that use
--                 them; Meta the paths of lib/resource.c; Create, Remove, Owner, Truncate, Stats,
--                 Reading, Composing, Links, Space and Readdir the rest of lib/midlevel.c with what it
--                 calls. Control has the tests that they begin with.
--   Server        lib/afp.c: Registry has the list of servers, Versions the choice of the protocol
--                 version, Status dsi_getstatus_reply of lib/dsi.c, Login the end of afp_server_login,
--                 Volumes the unmounting, Opening afp_connect_volume. Connect has lib/connect.c and
--                 lib/server.c, with the network and the server as parameters.
--   Handshake     lib/proto_login.c, lib/proto_session.c and lib/proto_server.c: Requests has the packets,
--                 Replies the handlers, Received what a server reads.
--   Fuse          fuse/fuse_int.c: Operations has the functions that libfuse calls, Read the loop of
--                 fuse_read.
--   Daemon        fuse/commands.c: Clients has the list of clients and the reading of their commands,
--                 Mounting the choice of a volume, Commands the answers.
--   Tests         a small server, and the properties at concrete inputs.
--
-- The other files prove what these definitions do; each says which code it is about.
--
-- The server is a parameter: `peer` gives the reply to a request from all that was sent so far. What a
-- reply handler stores comes with the reply, and is nothing where the server reports an error. The
-- clock is a parameter too. An uninitialised struct holds what `garbage` holds. malloc succeeds. A
-- path is a C string of fewer than AFP_MAX_PATH bytes. A switch is a list of cases, and a fall-through
-- is written out in it.
--
-- Bounds: the walks of get_dirid take the length of the path as fuel, as each step drops a name; the
-- write loop takes the number of bytes, as each round writes at least one if the largest packet is not
-- empty; the loop over the names of a path takes its length. The label try_again of ll_open has no
-- bound in the source, as a server may go on to find no file that it has just created: `tries` bounds
-- it, and running out is a result of its own. escape_strrchr is bounded by a number of calls, and
-- more calls than the string has characters are the result `endless`. The rounds of ll_readdir are
-- bounded by fuel, and one round more than there are entries is enough; so are the searches of the list
-- of servers, with more rounds than there are servers. dsi_recv has no loop.
-- The loop of fuse_read is bounded by fuel; as much as there are bytes to read is enough where the
-- server answers from a file.
--
-- Not modelled: the reconnection and attention packets; the tables of Unicode composition, which are
-- adapted from another project and are parameters of Composing; the login methods, which are
-- cryptography of libgcrypt around the packets of Handshake; sockets and threads themselves, which are
-- calls of the system; process_mount of the daemon, which waits for the thread of libfuse; the programs
-- around the daemon and on the command line, which parse options and print.
pub mod Prelude
pub mod Afp
pub mod Did
pub mod Dsi
pub mod Loop
pub mod Url
pub mod Reply
pub mod Packet
pub mod Volume
pub mod Server
pub mod Handshake
pub mod Fuse
pub mod Daemon
pub mod Tests
