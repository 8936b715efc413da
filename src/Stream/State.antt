-- ===== src/Stream/State.antt =====
-- The state of a `StreamTransport` (aiofastnet/transport.pyx), the calls that it makes, and its
-- close. A `WriteRequest` is the bytes of its unsent range; a `SendFileRequest` has the file's
-- content. The trace lists the calls to the event loop, the socket, the protocol and the server,
-- newest first. Callbacks of the protocol do not call back into the transport.
pub mod Core
use aiofastnet.Base.{
  ℕ, Bool, true, false, ◌||◌, Option, none, some, List, [], ◌∷◌, length, ◌==◌, if◌then◌else◌,
}
use aiofastnet.Stream.Watermarks
use aiofastnet.Stream.Kernel.{Answer, Kernel, Exc, os_error, attribute_error}
use aiofastnet.Stream.Watermarks.{Watermarks, Call, maybe_pause_protocol, maybe_resume_protocol}

pub record SendFileRequest : Type 0 where
  pub file : List ℕ
  pub offset : ℕ
  pub count : ℕ
  -- the future that the caller awaits, once there is one
  pub waiter : Option ℕ

pub data Request : Type 0 where
  write_request : List ℕ → Request
  sendfile_request : SendFileRequest → Request

pub data Event : Type 0 where
  protocol_call : Call → Event
  connection_made : Event
  connection_lost : Option Exc → Event
  exception_handler : Exc → Event
  add_reader remove_reader add_writer remove_writer : Event
  -- `socket.shutdown(SHUT_WR)`, and `file.close()`
  shutdown_write close_file : Event
  -- `loop.call_soon(self._finalize_close, exc)`
  call_soon_finalize : Option Exc → Event
  server_detach log_warning : Event
  waiter_result waiter_cancel : ℕ → Event
  waiter_exception : ℕ → Exc → Event

pub record Stream : Type 0 where
  pub kernel : Kernel
  pub write_backlog : List Request
  pub write_backlog_size : ℕ
  pub watermarks : Watermarks
  pub closed_write_count : ℕ
  pub write_ready_registered : Bool
  pub read_paused : Bool
  pub closing : Bool
  pub finalizing_close : Bool
  pub write_eof_called : Bool
  pub protocol_connected : Bool
  -- whether `_protocol` is None
  pub protocol_dropped : Bool
  pub is_socket : Bool
  pub sendfile_compatible : Bool
  -- whether a server is attached
  pub server : Bool
  -- the call of `_finalize_close` that the event loop still has to make
  pub finalize_scheduled : Option (Option Exc)
  pub next_waiter : ℕ
  pub trace : List Event

-- A new `StreamTransport` over a socket or a pipe.
unfoldable pub init : Bool → Bool → Bool → List Answer → Stream
unfolding Watermarks.init
init socket server able script = record {
  kernel = record { wire = []; script = script };
  write_backlog = [];
  write_backlog_size = 0;
  watermarks = Watermarks.init;
  closed_write_count = 0;
  write_ready_registered = false;
  read_paused = false;
  closing = false;
  finalizing_close = false;
  write_eof_called = false;
  protocol_connected = false;
  protocol_dropped = false;
  is_socket = socket;
  sendfile_compatible = able;
  server = server;
  finalize_scheduled = none;
  next_waiter = 0;
  trace = [];
}

abbrev pub emit : Event → Stream → Stream
emit e s = record s { trace = e ∷ s.trace }

-- A call to the protocol. Once `_protocol` is None it raises an AttributeError, which is reported.
abbrev pub emit_call : Option Call → Stream → Stream
emit_call none s = s
emit_call (some c) s =
    emit (if s.protocol_dropped then exception_handler attribute_error else protocol_call c) s

abbrev pub request_size : Request → ℕ
request_size (write_request d) = length d
request_size (sendfile_request r) = r.count

-- `_pause_reading` and the `_stop_reading` of a selector transport
unfoldable pub pause_reading_now : Stream → Stream
pause_reading_now s =
    if s.read_paused then s else emit remove_reader (record s { read_paused = true })

unfoldable pub schedule_finalize_close : Option Exc → Stream → Stream
schedule_finalize_close exc s =
    emit (call_soon_finalize exc)
      (record s { finalizing_close = true; finalize_scheduled = some exc })

unfoldable pub maybe_pause : Stream → Stream
maybe_pause s =
    let (w, c) = maybe_pause_protocol s.watermarks s.write_backlog_size in
    emit_call c (record s { watermarks = w })

unfoldable pub maybe_resume : Stream → Stream
maybe_resume s =
    let (w, c) = maybe_resume_protocol s.watermarks s.write_backlog_size in
    emit_call c (record s { watermarks = w })

unfoldable pub start_backlog_writing : Stream → Stream
start_backlog_writing s =
    if s.finalizing_close || s.write_ready_registered
    then s
    else emit add_writer (record s { write_ready_registered = true })

unfoldable pub stop_backlog_writing : Stream → Stream
stop_backlog_writing s =
    if s.write_ready_registered
    then emit remove_writer (record s { write_ready_registered = false })
    else s

-- How `_clear_write_backlog(exc)` settles the waiter of a file transfer.
abbrev pub settle_waiter : Option Exc → Option ℕ → List Event → List Event
settle_waiter exc none t = t
settle_waiter none (some w) t = waiter_cancel w ∷ t
settle_waiter (some e) (some w) t = waiter_exception w e ∷ t

unfoldable pub settle_waiters : Option Exc → List Request → List Event → List Event
settle_waiters exc [] t = t
settle_waiters exc (write_request _ ∷ rest) t = settle_waiters exc rest t
settle_waiters exc (sendfile_request r ∷ rest) t =
    settle_waiters exc rest (settle_waiter exc r.waiter t)

unfoldable pub clear_write_backlog : Option Exc → Stream → Stream
clear_write_backlog exc s = record s {
  write_backlog = [];
  write_backlog_size = 0;
  trace = settle_waiters exc s.write_backlog s.trace;
}

-- `WritableTransport._force_close`
unfoldable pub force_close : Option Exc → Stream → Stream
unfolding pause_reading_now schedule_finalize_close stop_backlog_writing clear_write_backlog
force_close exc s =
    if s.finalizing_close
    then s
    else let s1 = if s.closing then s else pause_reading_now (record s { closing = true }) in
      schedule_finalize_close exc (clear_write_backlog exc (stop_backlog_writing s1))

-- `WritableTransport.close`
unfoldable pub close : Stream → Stream
unfolding pause_reading_now schedule_finalize_close
close s =
    if s.closing
    then s
    else let s1 = pause_reading_now (record s { closing = true }) in
      if s1.write_backlog_size == 0 then schedule_finalize_close none s1 else s1

-- `FDTransport._should_report_fatal_error`
abbrev pub should_report : Exc → Bool
should_report (os_error _) = false
should_report Exc.broken_pipe = false
should_report _ = true

-- `_handle_error` and `_fatal_error`
unfoldable pub handle_error : Exc → Stream → Stream
unfolding force_close
handle_error exc s =
    force_close (some exc) (if should_report exc then emit (exception_handler exc) s else s)

abbrev pub lose_connection : Option Exc → Stream → Stream
lose_connection exc s =
    if s.protocol_connected
    then emit (connection_lost exc) (record s { protocol_connected = false })
    else s

abbrev pub detach_server : Stream → Stream
detach_server s = if s.server then emit server_detach (record s { server = false }) else s

-- `StreamTransport._finalize_close`, when the event loop makes the call
unfoldable pub finalize_close : Stream → Stream
finalize_close s = elim s.finalize_scheduled [
  | none ↦ s
  | some exc ↦
      let t = emit close_file (lose_connection exc (record s { finalize_scheduled = none })) in
      detach_server (record t { protocol_dropped = true })
]

-- `Transport._call_protocol_connection_made`
unfoldable pub call_connection_made : Stream → Stream
call_connection_made s =
    if s.protocol_connected || s.finalizing_close
    then s
    else emit connection_made (record s { protocol_connected = true })
