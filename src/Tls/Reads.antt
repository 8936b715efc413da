-- ===== src/Tls/Reads.antt =====
-- Reading and shutting down: `_do_read_into_void`, `_do_flush`, `_do_shutdown`, `_start_shutdown`,
-- `_do_read`, `_read_ready` and `_write_ready` (aiofastnet/ssl_transport.pyx).
use aiofastnet.Base.{
  ℕ, ◌+◌, ◌-◌, Bool, true, false, not, ◌||◌, none, List, [], ◌∷◌, ◌++◌, take, length, ltb, ◌==◌,
  if◌then◌else◌,
}
use aiofastnet.Stream.Kernel
use aiofastnet.Tls.{
  Phase, unwrapped, in_handshake, wrapped, flushing, in_shutdown, ssl, want_read, want_write,
  syscall, Answer, progress, stops, ssl_failure, runtime_error, data_received, shutdown_timer, Tls,
  Reply, raised, and_then, done, emit, set_state, flush_outgoing_bio, drop_writer, system,
}
use aiofastnet.Tls.Close.{guard, process_eof, on_shutdown_complete, abort}
use aiofastnet.Tls.Loops.{
  answered, do_handshake, read_failure, flush_write_backlog, should_retry_read,
}

-- `_do_read_into_void`. It runs in FLUSHING and SHUTDOWN, where `_start_shutdown` returns at once.
unfoldable pub void_script : List Answer → Tls → Tls × Reply (Unit {0})
void_script [] s = done tt (record s { script = [] })
void_script (progress _ _ c ∷ script) s = void_script script (answered script c s)
void_script (stops e c ∷ script) s =
    and_then (should_retry_read (done tt) e (answered script c s))
      (λ retry t. if retry then void_script script t else done tt t)

unfoldable pub do_read_into_void : Tls → Tls × Reply (Unit {0})
do_read_into_void s = void_script s.script s

-- `_do_shutdown` around the engine's `shutdown`.
unfoldable pub shutdown_script : List Answer → Tls → Tls × Reply (Unit {0})
shutdown_script [] s = and_then (flush_outgoing_bio (record s { script = [] })) (λ _ t. done tt t)
shutdown_script (progress _ _ c ∷ script) s =
    and_then (flush_outgoing_bio (answered script c s))
      (λ _ t. done tt (on_shutdown_complete none t))
shutdown_script (stops want_read c ∷ script) s =
    and_then (flush_outgoing_bio (answered script c s)) (λ _ t. done tt t)
shutdown_script (stops want_write c ∷ script) s =
    and_then (flush_outgoing_bio (answered script c s))
      (λ retry t. if retry then shutdown_script script t else done tt t)
shutdown_script (stops _ c ∷ script) s = (answered script c s, raised ssl_failure)

unfoldable pub do_shutdown : Tls → Tls × Reply (Unit {0})
do_shutdown s = and_then (do_read_into_void s) (λ _ t. shutdown_script t.script t)

-- `get_local_write_buffer_size`, over a protocol with no buffer of its own.
unfoldable pub local_write_buffer_size : Tls → ℕ
local_write_buffer_size s = s.write_backlog_size + length s.outgoing

unfoldable pub end_flush : Tls → Tls × Reply (Unit {0})
end_flush s =
    if local_write_buffer_size s == 0
    then and_then (set_state in_shutdown s) (λ _ t. do_shutdown t)
    else done tt s

unfoldable pub do_flush : Tls → Tls × Reply (Unit {0})
do_flush s =
    and_then (do_read_into_void s)
      (λ _ t. and_then (flush_write_backlog t.phase t) (λ _ u. end_flush u))

-- `_start_shutdown`. Once `_finalize_close` has dropped the loop, there is none to set a timer on.
unfoldable pub start_flush : Tls → Tls × Reply (Unit {0})
start_flush s =
    if s.sock
    then do_flush (emit shutdown_timer (record s { shutdown_timeout_handle = true }))
    else (s, raised runtime_error)

unfoldable pub start_shutdown : Phase → Tls → Tls × Reply (Unit {0})
start_shutdown in_handshake s = abort in_handshake none s
start_shutdown wrapped s = and_then (set_state flushing s) (λ _ t. start_flush t)
start_shutdown _ s = done tt s

abbrev pub data_received_max_size : ℕ
data_received_max_size = 262144

abbrev pub deliver : List ℕ → Tls → Tls
deliver [] s = s
deliver d s = emit (data_received d) s

-- `_do_read__copied` around the engine's `read`, with the bytes that fill the buffer so far.
unfoldable pub read_script : List Answer → List ℕ → Tls → Tls × Reply (Unit {0})
read_script [] d s = done tt (deliver d (record s { script = [] }))
read_script (progress _ got c ∷ script) d s =
    let full = d ++ take (data_received_max_size - length d) got in
    if length full == data_received_max_size
    then if s.read_paused
      then done tt (deliver full (answered script c s))
      else read_script script [] (deliver full (answered script c s))
    else read_script script full (answered script c s)
read_script (stops ssl c ∷ script) d s = (answered script c s, raised (read_failure ssl))
read_script (stops syscall c ∷ script) d s = (answered script c s, raised (read_failure syscall))
read_script (stops e c ∷ script) d s =
    if s.read_paused
    then done tt (deliver d (answered script c s))
    else and_then
        (should_retry_read (λ t. start_shutdown t.phase t) e (deliver d (answered script c s)))
        (λ retry t. if retry then read_script script [] t else done tt t)

-- `_do_read`
unfoldable pub flush_after_read : Tls → Tls × Reply (Unit {0})
flush_after_read s =
    and_then (flush_outgoing_bio s)
      (λ _ t. if t.write_backlog_size == 0 then done tt t else flush_write_backlog t.phase t)

unfoldable pub do_read : Tls → Tls × Reply (Unit {0})
do_read s =
    if s.read_paused
    then done tt s
    else and_then (read_script s.script [] s)
        (λ _ t. if t.write_ready_registered then done tt t else flush_after_read t)

unfoldable pub incoming_bio_updated : Phase → Tls → Tls × Reply (Unit {0})
incoming_bio_updated in_handshake s = do_handshake s
incoming_bio_updated wrapped s = do_read s
incoming_bio_updated flushing s = do_flush s
incoming_bio_updated in_shutdown s = do_shutdown s
incoming_bio_updated unwrapped s = done tt s

-- What a read of the socket into the room of the incoming BIO comes to: so many bytes of so much
-- room, the end of the stream, EAGAIN, or an error.
pub data Arrival : Type 0 where
  arrives : ℕ → ℕ → Arrival
  at_eof blocked : Arrival
  breaks : ℕ → Arrival

abbrev pub max_read_bytes_per_cycle_hint : ℕ
max_read_bytes_per_cycle_hint = 262144

-- The budget of a cycle is used up, or the protocol has paused reading.
unfoldable pub is_spent : ℕ → Tls → Bool
is_spent total s = not (ltb total max_read_bytes_per_cycle_hint) || s.read_paused

-- The loop of `_read_ready`, with the bytes it has read so far. Past the list the socket has nothing.
unfoldable pub read_loop : List Arrival → ℕ → Tls → Tls × Reply (Unit {0})
read_loop [] total s = done tt s
read_loop (at_eof ∷ arrivals) total s =
    if is_spent total s then done tt s else process_eof s.phase s
read_loop (blocked ∷ arrivals) total s = done tt s
read_loop (breaks e ∷ arrivals) total s =
    if is_spent total s then done tt s else (s, raised (system (Kernel.os_error e)))
read_loop (arrives n room ∷ arrivals) total s =
    if is_spent total s
    then done tt s
    else and_then (incoming_bio_updated s.phase s)
        (λ _ t. if ltb n room then done tt t else read_loop arrivals (total + n) t)

unfoldable pub read_ready : List Arrival → Tls → Tls × Reply (Unit {0})
read_ready arrivals s = if s.finalizing_close then done tt s else guard (read_loop arrivals 0 s)

-- `_retry_ssl_read`
unfoldable pub retry_ssl_read : Tls → Tls × Reply (Unit {0})
retry_ssl_read s = if s.finalizing_close then done tt s else guard (incoming_bio_updated s.phase s)

-- `_write_ready`, after `_write_had_eagain` is reset.
unfoldable pub write_phase : Phase → Tls → Tls × Reply (Unit {0})
write_phase in_handshake s = do_handshake s
write_phase wrapped s =
    if s.write_backlog_size == 0 then do_read s else flush_write_backlog wrapped s
write_phase flushing s = do_flush s
write_phase in_shutdown s = do_shutdown s
write_phase unwrapped s = done tt s

unfoldable pub write_ready : Tls → Tls × Reply (Unit {0})
write_ready s =
    if s.finalizing_close
    then done tt s
    else guard (
        and_then (flush_outgoing_bio (record s { write_had_eagain = false })) (λ _ t.
          and_then (write_phase t.phase t)
            (λ _ u. done tt (if u.write_had_eagain then u else drop_writer u))))
