-- ===== src/Tls.antt =====
-- The TLS transport over a socket, `SSLTransport_Socket` (aiofastnet/ssl_transport.pyx), with the
-- direct engine over its two memory BIOs (aiofastnet/ssl_engine_direct.pyx). What OpenSSL answers is
-- a list that the environment chooses: one answer to each call, and past its end every call wants to
-- read. The outgoing BIO is its queue of bytes. Callbacks of the protocol do not call back into the
-- transport and do not raise, the protocol is not a buffered one, and kernel TLS is off, so that
-- the backlog holds no file. What a client writes is a bytes object, a bytearray or a memoryview whose
-- items are single bytes, and is its content here: of these `len` counts the bytes, and
-- `aiofn_maybe_copy_buffer_tail` keeps exactly the last ones.
pub mod Close
pub mod Loops
pub mod Reads
pub mod Run
pub mod Calm
pub mod Written
pub mod Closed
pub mod Kept
pub mod Events
pub mod Calls
pub mod Bodies
pub mod History
pub mod Promise
use aiofastnet.Base.{
  ℕ, ◌+◌, ◌-◌, Bool, true, false, ◌||◌, Option, none, some, List, [], ◌∷◌, ◌++◌, drop, length,
  is_empty, ltb, leb, ◌==◌, if◌then◌else◌,
}
use aiofastnet.Stream.Kernel
use aiofastnet.Stream.Kernel.{Kernel, Sent, sent, again, failed, aiofn_write}
use aiofastnet.Stream.Watermarks.{Watermarks, Call, maybe_pause_protocol, maybe_resume_protocol}

-- `SSLProtocolState`
pub data Phase : Type 0 where
  unwrapped in_handshake wrapped flushing in_shutdown : Phase

-- `SSLError`, as far as the engine meets it, less SSL_ERROR_NONE.
pub data SslError : Type 0 where
  ssl want_read want_write syscall zero_return : SslError

-- An answer of OpenSSL, with the records that it put into the outgoing BIO: the call got on, by at
-- least one byte, with the data that a read hands out; or it stopped.
pub data Answer : Type 0 where
  progress : ℕ → List ℕ → List ℕ → Answer
  stops : SslError → List ℕ → Answer

-- What can be raised.
pub data Exc : Type 0 where
  system : Kernel.Exc → Exc
  connection_reset connection_aborted timeout_error ssl_failure runtime_error : Exc
  -- the class `ConnectionResetError` itself, which is no instance of OSError
  reset_class : Exc
  value_error not_implemented attribute_error : Exc
  -- `cannot switch state`
  illegal_switch : Exc

-- The future that a connector awaits.
pub data Waiter : Type 0 where
  no_waiter waiting woken : Waiter
  refused : Exc → Waiter

pub data Event : Type 0 where
  protocol_call : Call → Event
  connection_made eof_received : Event
  data_received : List ℕ → Event
  connection_lost : Option Exc → Event
  exception_handler : Exc → Event
  add_reader remove_reader add_writer remove_writer : Event
  handshake_timer shutdown_timer cancel_handshake_timer cancel_shutdown_timer : Event
  call_soon_read close_socket server_detach log_warning : Event
  call_soon_finalize : Option Exc → Event

pub record Tls : Type 0 where
  pub script : List Answer
  -- the plaintext that OpenSSL has taken, and the records it has made
  pub taken : List ℕ
  pub produced : List ℕ
  pub outgoing : List ℕ
  pub kernel : Kernel
  pub phase : Phase
  pub sock : Bool
  pub finalizing_close : Bool
  pub read_paused : Bool
  pub write_backlog : List (List ℕ)
  pub write_backlog_size : ℕ
  pub watermarks : Watermarks
  pub write_had_eagain : Bool
  pub write_ready_registered : Bool
  pub closed_write_count : ℕ
  pub protocol_connected : Bool
  -- whether `_protocol` is None
  pub protocol_dropped : Bool
  pub protocol_eof_received : Bool
  pub waiter : Waiter
  pub handshake_timeout_handle : Bool
  pub shutdown_timeout_handle : Bool
  pub server : Bool
  pub finalize_scheduled : Option (Option Exc)
  pub trace : List Event

-- What a method comes to: it returns, or an exception leaves it.
pub data Reply {ℓ} (A : Type ℓ) : Type ℓ where
  ok : A → Reply A
  raised : Exc → Reply A

-- Statements one after the other.
abbrev pub and_then {ℓ} : {A B : Type ℓ} → Tls × Reply A → (A → Tls → Tls × Reply B) → Tls × Reply B
and_then (s, ok a) k = k a s
and_then (s, raised e) k = (s, raised e)

abbrev pub done {ℓ} : {A : Type ℓ} → A → Tls → Tls × Reply A
done a s = (s, ok a)

abbrev pub emit : Event → Tls → Tls
emit e s = record s { trace = e ∷ s.trace }

-- The phases that `_set_state` may switch to.
unfoldable pub allowed : Phase → Phase → Bool
allowed _ unwrapped = true
allowed unwrapped in_handshake = true
allowed in_handshake wrapped = true
allowed wrapped flushing = true
allowed wrapped in_shutdown = true
allowed wrapped in_handshake = true
allowed flushing in_shutdown = true
allowed _ _ = false

unfoldable pub set_state : Phase → Tls → Tls × Reply (Unit {0})
set_state p s =
    if allowed s.phase p then (record s { phase = p }, ok tt) else (s, raised illegal_switch)

-- FLUSHING, SHUTDOWN and UNWRAPPED.
unfoldable pub is_over : Phase → Bool
is_over in_handshake = false
is_over wrapped = false
is_over _ = true

unfoldable pub is_closing : Tls → Bool
is_closing s = s.finalizing_close || is_over s.phase

-- `_is_protocol_ready`
unfoldable pub count_closed : Tls → Tls
count_closed s =
    if leb 5 s.closed_write_count
    then emit log_warning (record s { closed_write_count = s.closed_write_count + 1 })
    else record s { closed_write_count = s.closed_write_count + 1 }

unfoldable pub is_protocol_ready : Tls → Tls × Bool
is_protocol_ready s = if is_closing s then (count_closed s, false) else (s, true)

unfoldable pub ensure_writer : Tls → Tls
ensure_writer s =
    let t : Tls = record s { write_had_eagain = true } in
    if s.finalizing_close || s.write_ready_registered
    then t
    else emit add_writer (record t { write_ready_registered = true })

unfoldable pub drop_writer : Tls → Tls
drop_writer s =
    if s.sock
    then if s.write_ready_registered
      then emit remove_writer (record s { write_ready_registered = false })
      else s
    else s

unfoldable pub flushed : Tls → Kernel × Sent → Tls × Reply Bool
flushed s (k, sent n) =
    let t : Tls = record s { kernel = k; outgoing = drop n s.outgoing } in
    if ltb n (length s.outgoing) then (ensure_writer t, ok false) else (t, ok true)
flushed s (k, again) = (ensure_writer (record s { kernel = k }), ok false)
flushed s (k, failed e) = (record s { kernel = k }, raised (system e))

-- `_flush_outgoing_bio`; with memory BIOs it is `_should_retry_after_want_write` too.
unfoldable pub flush_outgoing_bio : Tls → Tls × Reply Bool
flush_outgoing_bio s =
    if s.write_had_eagain
    then (s, ok false)
    else if is_empty s.outgoing
    then (s, ok true)
    else flushed s (aiofn_write s.outgoing s.kernel)

-- OpenSSL puts records into the outgoing BIO.
abbrev pub put_records : List ℕ → Tls → Tls
put_records c s = record s { outgoing = s.outgoing ++ c; produced = s.produced ++ c }

-- A call to the protocol. Once `_protocol` is None it raises an AttributeError, which is reported.
abbrev pub emit_call : Option Call → Tls → Tls
emit_call none s = s
emit_call (some c) s =
    emit (if s.protocol_dropped then exception_handler attribute_error else protocol_call c) s

unfoldable pub maybe_pause : Tls → Tls
maybe_pause s =
    let w = maybe_pause_protocol s.watermarks s.write_backlog_size in
    emit_call w.1 (record s { watermarks = w.0 })

unfoldable pub maybe_resume : Tls → Tls
maybe_resume s =
    let w = maybe_resume_protocol s.watermarks s.write_backlog_size in
    emit_call w.1 (record s { watermarks = w.0 })
