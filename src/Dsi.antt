-- ===== src/Dsi.antt =====
-- lib/dsi.c: the Data Stream Interface below the AFP calls. Bytes on the wire, the queue of requests
-- that wait for a reply, and the receiver that the main loop runs when the socket is readable.
pub mod Wire
pub mod Queue
pub mod QueueLaws
pub mod Receive
pub mod Buffer
pub mod Framing
pub mod Deliver
pub mod Sender
pub mod Waiting
