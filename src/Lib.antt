-- ===== src/Lib.antt =====
-- The ARC protocol library: a C library that carries small messages between the boards of a
-- rocket over serial links. A message is a frame with a CRC (src/arc_protocol.c), is stuffed by
-- COBS for the wire, is sent on by a static router (src/arc_router.c) and is acknowledged,
-- retransmitted and deduplicated by an endpoint (src/arc_reliable.c). Its payload is written and
-- read by an encoder and a decoder of its family (src/arc_messages_*.c).
--
-- Modules and code:
--   Prelude, Memory: numbers, lists, bits; C buffers and pointers. A function that may read or
--     write out of a buffer returns `Run`, whose `fault` is what C leaves undefined.
--   Protocol: the constants, result codes and the frame of src/arc_protocol.h.
--   Crc: `arc_crc16`; Step and Register follow its rounds, Lfsr is a shift register that is described
--     without them, Burst is about corrupted messages.
--   Frame: `arc_frame_build`, `arc_frame_parse`, `arc_frame_build_ack`, `arc_frame_set_flag`;
--     Wire describes the wire format, Build and Parse follow the code, Accept puts them together,
--     Outcome and Detect are about the parser on any bytes and on corrupted ones, Flag about
--     `arc_frame_set_flag` and `arc_frame_build_ack`.
--   Cobs: `arc_cobs_encode` and `arc_cobs_decode`; Stuff describes the encoding.
--   Router: `arc_router_init`, `arc_router_add_link`, `arc_router_add_route`,
--     `arc_router_set_default` and `arc_router_route`; Table, Invariant, Routing, Growth and
--     Default.
--   Reliable: `arc_reliable_init`, `arc_reliable_send`, `arc_reliable_receive`,
--     `arc_reliable_tick` and their helpers; Slots, Invariant, History, Send, Branches,
--     Receive, Receipt, Timer, Outstanding (the timers on a list of messages) and Exchange.
--   Network: two endpoints on a network, as a step relation: `arc_reliable_send`,
--     `arc_reliable_tick` and `arc_reliable_receive` in any order, frames lost, repeated and
--     reordered. A run has one direction: the one end sends reliable messages, the other answers.
--     History, Traffic and Arrival are about one operation, Effects, Invariant, Fresh and Steps
--     about one step, Once about runs; Ledger, Moves and Settled account for the messages.
--   Messages: the encoders and decoders of the six families of src/arc_messages_*.c. Encoders of a
--     fixed size share `encode`, decoders `decode`; payloads of variable length share Cursor, the
--     stores, loads and loops at a moving offset, and Text, the loops that look for a NUL.
--   Vectors: `emit_vector` and `main` of examples/gen_vectors.c; Tests.Vectors has
--     vectors/test_vectors.txt.
--   Tests: runs and instances on concrete values.
--
-- State and operations: a struct is a record, a table of it a list of its length, and an operation
-- takes the struct and returns it. A pointer argument is an `Option`, NULL being `none`. An embedder's
-- callback is a value that the code stores; calling it is an entry of a list of calls, in order.
-- Fixed-width arithmetic is written out with its wrap-around. A loop is a recursion on its
-- table or input; the loop of the COBS decoder has fuel, the length of its input, and
-- Cobs.Safety shows that it is enough; a search for a NUL has the bytes up to its limit.
--
-- Not modelled: overflow of `size_t`, buffers that overlap, callbacks that call the endpoint
-- again, the addresses and type codes that no function uses, the Python mirror, the message
-- generator, and the tests.
pub mod Prelude
pub mod Memory
pub mod Crc
pub mod Protocol
pub mod Frame
pub mod Cobs
pub mod Router
pub mod Reliable
pub mod Network
pub mod Messages
pub mod Vectors
pub mod Tests
