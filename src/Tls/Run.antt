-- ===== src/Tls/Run.antt =====
-- The calls of a client and of the event loop on a TLS transport, and its histories
-- (aiofastnet/ssl_transport.pyx).
use aiofastnet.Base.{
  ℕ, ◌+◌, Bool, true, false, not, ◌||◌, Option, none, some, List, [], ◌∷◌, ◌++◌, length, ◌==◌,
  if◌then◌else◌,
}
use aiofastnet.Stream.Kernel
use aiofastnet.Stream.Watermarks
use aiofastnet.Stream.Watermarks.{set_limits}
use aiofastnet.Tls.{
  Phase, unwrapped, in_handshake, wrapped, flushing, in_shutdown, Answer, Exc, connection_aborted,
  timeout_error, value_error, not_implemented, Waiter, handshake_timer, add_reader, remove_reader,
  call_soon_read, Tls, Reply, ok, raised, and_then, done, cancel_handshake_timer, drop_writer, emit,
  set_state, is_closing, is_protocol_ready, flush_outgoing_bio, maybe_pause, maybe_resume,
}
use aiofastnet.Tls.Close.{abort, handshake_failed, guard, finalize}
use aiofastnet.Tls.Loops.{write_impl, append_to_backlog}
use aiofastnet.Tls.Reads.{
  start_shutdown, Arrival, read_ready, retry_ssl_read, write_ready, incoming_bio_updated,
}

-- The state that `__init__` makes before the handshake.
unfoldable pub init : Bool → Waiter → List Answer → List Kernel.Answer → Tls
unfolding Watermarks.init
init server waiter script answers = record {
  script = script;
  taken = [];
  produced = [];
  outgoing = [];
  kernel = record { wire = []; script = answers };
  phase = unwrapped;
  sock = true;
  finalizing_close = false;
  read_paused = false;
  write_backlog = [];
  write_backlog_size = 0;
  watermarks = Watermarks.init;
  write_had_eagain = false;
  write_ready_registered = false;
  closed_write_count = 0;
  protocol_connected = false;
  protocol_dropped = false;
  protocol_eof_received = false;
  waiter = waiter;
  handshake_timeout_handle = false;
  shutdown_timeout_handle = false;
  server = server;
  finalize_scheduled = none;
  trace = add_reader ∷ [];
}

-- `_start_handshake`
unfoldable pub start_handshake : Tls → Tls × Reply (Unit {0})
start_handshake s = and_then (set_state in_handshake s) (λ _ t.
    let u : Tls = emit handshake_timer (record t { handshake_timeout_handle = true }) in
    incoming_bio_updated u.phase u)

-- `__init__`, which gives the socket back to its caller if the handshake cannot start.
unfoldable pub give_back : Tls → Tls
give_back s =
    let t = drop_writer (emit remove_reader (record s { sock = false })) in
    if t.handshake_timeout_handle
    then emit cancel_handshake_timer (record t { handshake_timeout_handle = false })
    else t

unfoldable pub constructed : Tls × Reply (Unit {0}) → Tls × Reply (Unit {0})
constructed (s, ok u) = (s, ok u)
constructed (s, raised e) = (give_back s, raised e)

unfoldable pub construct : Tls → Tls × Reply (Unit {0})
construct s = constructed (start_handshake s)

-- The body of the `try` in `write_nocheck` and `write_c`.
unfoldable pub append_tail : Bool → Option (List ℕ) → Tls → Tls
append_tail pause none s = s
append_tail pause (some rest) s = append_to_backlog rest pause s

unfoldable pub write_now : List ℕ → Tls → Tls × Reply (Unit {0})
write_now d s =
    and_then (write_impl d s)
      (λ tail t. and_then (flush_outgoing_bio t) (λ _ u. done tt (append_tail true tail u)))

unfoldable pub write_body : List ℕ → Tls → Tls × Reply (Unit {0})
write_body [] s = done tt s
write_body (x ∷ d) s =
    if s.write_backlog_size == 0
    then write_now (x ∷ d) s
    else done tt (append_to_backlog (x ∷ d) true s)

unfoldable pub write_nocheck : List ℕ → Tls → Tls × Reply (Unit {0})
write_nocheck d s =
    let r = is_protocol_ready s in if r.1 then guard (write_body d r.0) else done tt r.0

-- `writelines_nocheck`: once a tail is left, what follows joins the backlog.
unfoldable pub append_all : List (List ℕ) → Tls → Tls
append_all [] s = s
append_all (d ∷ ds) s = append_all ds (append_to_backlog d false s)

unfoldable pub append_raw : List ℕ → Tls → Tls
append_raw rest s = record s {
  write_backlog = s.write_backlog ++ rest ∷ [];
  write_backlog_size = s.write_backlog_size + length rest;
}

unfoldable pub write_lines : List (List ℕ) → Tls → Tls × Reply (Unit {0})
write_lines [] s = done tt s
write_lines (d ∷ ds) s = and_then (write_impl d s) (λ tail t. elim tail [
  | none ↦ write_lines ds t
  | some rest ↦ done tt (append_all ds (append_raw rest t))
])

unfoldable pub lines_body : List (List ℕ) → Tls → Tls × Reply (Unit {0})
lines_body ds s =
    if s.write_backlog_size == 0
    then and_then (write_lines ds s)
        (λ _ t. and_then (flush_outgoing_bio t) (λ _ u. done tt (maybe_pause u)))
    else done tt (maybe_pause (append_all ds s))

unfoldable pub writelines_nocheck : List (List ℕ) → Tls → Tls × Reply (Unit {0})
writelines_nocheck ds s =
    let r = is_protocol_ready s in if r.1 then guard (lines_body ds r.0) else done tt r.0

-- `_check_handshake_timeout` and `_check_shutdown_timeout`
unfoldable pub check_handshake_timeout : Phase → Tls → Tls × Reply (Unit {0})
check_handshake_timeout in_handshake s = handshake_failed connection_aborted s
check_handshake_timeout _ s = done tt s

unfoldable pub check_shutdown_timeout : Phase → Tls → Tls × Reply (Unit {0})
check_shutdown_timeout flushing s = abort flushing (some timeout_error) s
check_shutdown_timeout in_shutdown s = abort in_shutdown (some timeout_error) s
check_shutdown_timeout _ s = done tt s

-- `pause_reading` and `resume_reading`
unfoldable pub pause_reading : Tls → Tls
pause_reading s =
    if is_closing s || s.read_paused
    then s
    else emit remove_reader (record s { read_paused = true })

unfoldable pub schedule_read : Phase → Tls → Tls
schedule_read wrapped s = emit call_soon_read s
schedule_read flushing s = emit call_soon_read s
schedule_read in_shutdown s = emit call_soon_read s
schedule_read _ s = s

unfoldable pub resume_reading : Tls → Tls
resume_reading s =
    if is_closing s || not s.read_paused
    then s
    else schedule_read s.phase (emit add_reader (record s { read_paused = false }))

-- `set_write_buffer_limits`
unfoldable pub set_write_buffer_limits : Option ℕ → Option ℕ → Tls → Tls × Reply (Unit {0})
set_write_buffer_limits high low s = elim (set_limits s.watermarks high low) [
  | none ↦ (s, raised value_error)
  | some w ↦ done tt (maybe_resume (maybe_pause (record s { watermarks = w })))
]

-- `write_eof`, and `sendfile` without kernel TLS.
unfoldable pub write_eof : Tls → Tls × Reply (Unit {0})
write_eof s = (s, raised not_implemented)

unfoldable pub sendfile : Tls → Tls × Reply (Unit {0})
sendfile s = (s, raised not_implemented)

-- A call of a client, or an event.
pub data Op : Type 0 where
  write_call : List ℕ → Op
  writelines_call : List (List ℕ) → Op
  set_limits_call : Option ℕ → Option ℕ → Op
  write_eof_call sendfile_call : Op
  close_call abort_call pause_reading_call resume_reading_call : Op
  read_ready_event : List Arrival → Op
  write_ready_event retry_read_event handshake_timeout shutdown_timeout finalize_event : Op

unfoldable pub step : Op → Tls → Tls × Reply (Unit {0})
step (write_call d) s = write_nocheck d s
step (writelines_call ds) s = writelines_nocheck ds s
step (set_limits_call high low) s = set_write_buffer_limits high low s
step write_eof_call s = write_eof s
step sendfile_call s = sendfile s
step close_call s = guard (start_shutdown s.phase s)
step abort_call s = abort s.phase none s
step pause_reading_call s = done tt (pause_reading s)
step resume_reading_call s = done tt (resume_reading s)
step (read_ready_event arrivals) s = read_ready arrivals s
step write_ready_event s = write_ready s
step retry_read_event s = retry_ssl_read s
step handshake_timeout s = check_handshake_timeout s.phase s
step shutdown_timeout s = check_shutdown_timeout s.phase s
step finalize_event s = done tt (finalize s.finalize_scheduled s)

abbrev pub exceptions : Reply (Unit {0}) → List Exc
exceptions (ok _) = []
exceptions (raised e) = e ∷ []

-- A history, and what it raised.
unfoldable pub run : List Op → Tls → Tls × List Exc
run [] s = (s, [])
run (o ∷ ops) s = let r = step o s in let rest = run ops r.0 in (rest.0, exceptions r.1 ++ rest.1)
