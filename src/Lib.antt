-- ===== src/Lib.antt =====
-- PgBouncer (pgbouncer-1.25.0), the connection pooler that stands between the program and its
-- PostgreSQL server: the handling of clients and of server connections.
--
-- The parts and how they interact. A client that has a query to send asks find_server for a server
-- connection of its pool; it is linked to an idle one, or waits in the queue of the pool, for which
-- launch_new_connection may open one. When a transaction is over, release_server takes the
-- connection from its client, and gives it to the next client that waits. disconnect_client and
-- disconnect_server close sockets in any state. The three last call one another.
--
-- Bouncer (pgbouncer-1.25.0/include/bouncer.h): the structs as records, and the memory of the
--   process as one record `World`. A pointer to a socket, pool, database or user is its number, and
--   a function from numbers holds the objects; a NULL pointer is `none`. A `struct StatList` is a
--   list of numbers, found by its place (`ClientList`, `ServerList`). `uint64` times wrap around.
-- Settings (pgbouncer-1.25.0/src/server.c): pool_pool_size and its like.
-- Objects (pgbouncer-1.25.0/src/objects.c):
--   State: change_client_state, change_server_state; State/Placed on the lists.
--   Links: `link` and `unlink`, the assignments to `->link`; Links/Sound has the invariant `Inv`:
--     every socket stands once in the list that its state names, links are two-way, and only
--     sockets in matching states are linked.
--   Release: activate_client, life_over, reuse_on_release, reset_on_release, release_server.
--   Disconnect: unlink_server, disconnect_server, disconnect_client_sqlstate.
--   Launch: evict_connection and its like, launch_new_connection.
--   Find: pause_client, check_fast_fail, find_server.
--   Requests: add_outstanding_request, pop_outstanding_request, clear_outstanding_requests_until.
--   Cancel: pause_cancel_request, forward_cancel_request.
--   Env: the parameters. What the socket layer, DNS and the cache of variables do is an argument of
--     the handlers that call them, and `IsOrderly` (Frame) says what is relied on.
-- Packet (pgbouncer-1.25.0/src/pktbuf.c and proto.c):
--   PktBuf: the buffer, make_room and the pktbuf_put functions, pktbuf_write_generic.
--   Header: get_header, on the bytes that are received and not read.
--   Bytes: integers in network order.
-- Hba (pgbouncer-1.25.0/src/hba.c and include/hba.h):
--   StrSet: the set of names. Tokens: `struct TokParser` and its steps, as a monad of parsers.
--   Names: parse_names and the files that names stand for. Address: addresses, masks and matching.
--   Ident: the maps of names. Rules: parse_line and hba_load_rules. Match: hba_eval.
--   Types: the structs, and `HbaEnv`, the parameters: allocations, the files, inet_pton, dirname and
--     the tree of libusual.
-- Stream (pgbouncer-1.25.0/include/iobuf.h, include/sbuf.h and src/sbuf.c):
--   IoBuf: the buffer of a socket with its three positions. IoBuf/Holds: what it holds.
--   SBuf: the state of a socket. Sending: sbuf_call_proto, sbuf_queue_send, sending what waits.
--   Pending: sbuf_process_pending. `proto_cb` is a parameter; it
--     gets the bytes that it may look at and the state, and gives its answer and the new state. What
--     the target takes of each send is a list of answers in the state, at whose end it would block.
--     Pending/Forwards has what a handler must do, and `Moves`, the ways in which packets let bytes
--     out; Errors and Delivery are on the target.
--   Receive: sbuf_try_resync, sbuf_actual_recv, allocate_iobuf and sbuf_main_loop; the answers of
--     the socket are a list, one for each round, and `LoopEnv` holds the rest of its surroundings.
--   Prepare: the sbuf_prepare functions and sbuf_close. Prepare/Passed: the packets that they make.
-- Tests: a pooler with a few clients and connections, on which the theorems are run.
--
-- Outcomes. `fatal()`, a failed Assert and a read through NULL are `abort`. (Assert is compiled in
-- only with CASSERT; without it the program would go on.) The mutual recursion of the closing
-- operations is on fuel, `calls env fuel`, six levels in `closing`: each call leaves a link cut or a
-- cancel request finished behind it. The loop of find_server has as many rounds as there are idle
-- connections and one more, and those of launch_new_connection as many as there are connections
-- that may be evicted and one more.
--
-- Sizes of packets are `int`: where one would leave 31 bits, which C does not define, the outcome is
-- `abort`. make_room doubles a length with one round more than there are bytes needed, which
-- suffices for any positive length.
--
-- A C string is a list of bytes without its NUL, and the part of a line that is left is a list. The
-- fuel of parse_names is how deep files name files; its loop has as many rounds as bytes are left in
-- the line and one more. `uint32` words of addresses are compared byte by byte.
--
-- The positions of a buffer are `unsigned` and wrap around at 2^32. The target in sbuf.c is known by
-- its socket alone, and the bytes it has got are a field. `io` is read anew where the source keeps a
-- copy of the pointer. sbuf_process_pending has as many rounds as there are bytes to parse and one
-- more, since each round but the last parses a byte at least. The rounds of sbuf_main_loop are on
-- fuel; one more than `cf_sbuf_loopcnt` is enough, where that is positive.
--
-- Not modelled: the freeing of rules and maps; the contents of log lines and of error texts; the
-- clearing of memory in client_free and server_free, which none of the functions above asks for;
-- authentication, the console, configuration files, statistics, accepting, connecting and pausing
-- in sbuf.c, TLS, prepared statements and the system calls; the libraries copied to
-- pgbouncer-1.25.0/lib and pgbouncer-1.25.0/src/common; the backend and frontend directories.
pub mod Base
pub mod Bouncer
pub mod Settings
pub mod Objects
pub mod Packet
pub mod Hba
pub mod Stream
pub mod Tests
