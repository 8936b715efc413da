-- ===== src/Lib.antt =====
-- The network layer of aiofastnet: transports, servers and socket coroutines for an asyncio event
-- loop, as functions on explicit states, and what they are proved to do.
--
-- The parts and the code that they follow:
-- Base: Boolean tests, lists with a native length, and sets as lists.
-- Buffer: bytes-like objects and what a transport keeps of them (aiofastnet/utils.pyx,
-- aiofn_maybe_copy_buffer and aiofn_maybe_copy_buffer_tail).
-- Stream: the write side of StreamTransport (aiofastnet/transport.pyx). Stream.Kernel is the
-- operating system, which answers from a list that the environment chooses, and aiofn_write and
-- aiofn_writev (aiofastnet/utils.pyx); Stream.Watermarks is WriteWatermarks; Stream.State is the
-- state, close, _force_close and _finalize_close; Stream.Write, Stream.Lines and
-- Stream.Sendfile are write_nocheck and write_c, writelines_nocheck, and sendfile; Stream.Drain is
-- _write_ready and write_eof; Stream.Run is histories of calls. Stream.Delivery is about the bytes
-- and the backlog, Stream.Stable shows an invariant of the whole transport from its parts, and
-- Stream.Calls is about what the protocol hears.
-- Server: Server (aiofastnet/api_utils.py), which a transport tells of its end. Server.Accepting
-- is _accept_connection and _accept_connection2 and histories of calls; Server.Waiters is about
-- wait_closed, Server.Readers about what the event loop watches, Server.Backlog about accept.
-- Sock: the coroutines of aiofastnet/api_sock.py; Sock.Sendall is sock_sendall.
-- Connect: create_connection, _connect_sock and _interleave_addrinfos
-- (aiofastnet/api_create_connection.py).
-- Listen: the listening sockets of create_server (aiofastnet/api_create_server.py).
-- Arguments, Resolve: _validate_ssl_timeout, _validate_bio_size, _ipaddr_info and _ensure_resolved
-- (aiofastnet/api_utils.py, aiofastnet/constants.py).
-- Establish: _create_connection_transport (aiofastnet/api_utils.py).
-- Patch: patch_loop (aiofastnet/api_patch.py) and _get_original_loop_method
-- (aiofastnet/wrapped_transport.py).
-- Reading: the read side of SelectorSocketTransport and SelectorReadPipeTransport
-- (aiofastnet/selector_transport.pyx), with pause_reading, resume_reading and the calls to the
-- protocol (aiofastnet/transport.pyx) and aiofn_read (aiofastnet/utils.pyx). Reading.Still is about
-- the calls that move no bytes, Reading.Delivered about what the protocol is handed, Reading.Budget
-- about the rounds of an event.
-- Datagram: the write side of DatagramTransport (aiofastnet/transport.pyx) and of
-- SelectorDatagramTransport (aiofastnet/selector_transport.pyx), with aiofn_sendto
-- (aiofastnet/utils.pyx); Datagram.Order is about the order of the datagrams.
-- Sockaddr: the addresses of Python and of the system (aiofastnet/utils.pyx). Sockaddr.Paths is
-- about the paths of unix addresses, Sockaddr.Numbers about the numbers of the others,
-- Sockaddr.Meaning about the way to the system and back.
-- MemBio: the memory BIO (aiofastnet/static_mem_bio.c) and its use by the engine
-- (aiofastnet/ssl_engine_direct.pyx). MemBio.Queue is the queue that it promises to be;
-- MemBio.Invariant, MemBio.Moves, MemBio.Calls and MemBio.Refine show that it is.
-- Tls: SSLTransport_Socket (aiofastnet/ssl_transport.pyx) with the loops of SSLEngineDirect
-- (aiofastnet/ssl_engine_direct.pyx). Tls.Close is _force_close, _abort, _handle_error and
-- _finalize_close; Tls.Loops is the handshake, writing and the backlog; Tls.Reads is reading,
-- _do_flush, _do_shutdown, _read_ready and _write_ready; Tls.Run is the constructor, the calls of a
-- client and histories. Tls.Calm, Tls.Written, Tls.Closed, Tls.Kept, Tls.Events, Tls.Calls,
-- Tls.Bodies and Tls.History carry the invariant through them, and Tls.Promise has the results.
-- Witnesses: the theorems at concrete inputs.
--
-- States are records, a call is a function from state to state, and what a call does to the event
-- loop, to sockets and to protocols is appended to a trace, newest first. Exceptions are values.
-- Bytes, sockets, futures and transports are numbers. A TLS transport is given bytes-like objects
-- whose items are single bytes; a plain and a datagram transport any memoryview. The callbacks of a
-- protocol do not raise and do not call back into the transport, a protocol has no write buffer of
-- its own (get_local_write_buffer_size), and the future of a file transfer is settled only by the
-- transport. The loop of _write_ready runs on fuel, one more than the queued requests, since each
-- round that sends everything takes at least one request off. The loops of _read_ready run as many
-- rounds as the budget of a cycle has bytes, since a round that goes on has read one; the loops
-- around OpenSSL end with the list of its answers. In Reading the callbacks of a protocol do call
-- back, and raise, and a history ends before _finalize_close. Happy eyeballs, getaddrinfo,
-- inet_pton, inet_ntop and, for Connect, _create_connection_transport are parameters.
--
-- Not modelled: OpenSSL, whose answers are a list; for a TLS transport memoryviews of wide items,
-- kernel TLS, and with it sendfile, which then raises NotImplementedError, buffered protocols, and
-- SSLTransport_Transport, which runs TLS over another transport; the fallback engine; the reads of
-- a datagram transport; the unix, pipe, stream and datagram endpoints; the wrapped transports,
-- which delegate; debug logs.
pub mod Base
pub mod Buffer
pub mod Stream
pub mod Server
pub mod Sock
pub mod Connect
pub mod Arguments
pub mod Resolve
pub mod Establish
pub mod Patch
pub mod Listen
pub mod Reading
pub mod Datagram
pub mod Sockaddr
pub mod MemBio
pub mod Tls
pub mod Witnesses
