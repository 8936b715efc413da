-- ===== src/Reading.antt =====
-- The read side of a selector stream transport (aiofastnet/selector_transport.pyx, with the calls to
-- the protocol and the pause of aiofastnet/transport.pyx, and `aiofn_read` of aiofastnet/utils.pyx).
-- What the socket answers, and what the protocol does within its callbacks, are lists that the
-- environment chooses. The write side appears as whether its backlog is empty. A history ends before
-- the event loop makes the call of `_finalize_close`.
pub mod Still
pub mod Budget
pub mod Delivered
use aiofastnet.Base.{
  ℕ, zero, suc, ◌+◌, min, Bool, true, false, not, ◌||◌, ◌&&◌, Option, none, some, List, [], ◌∷◌,
  ◌++◌, take, drop, length, is_empty, ltb, ◌==◌, if◌then◌else◌,
}

-- The bytes that the peer has sent and that are still to be read, and the system's answers: to
-- hand out up to so many bytes (one more than the number), that it would block, that it was
-- interrupted, the end of the stream, or an error.
pub data Answer : Type 0 where
  gives : ℕ → Answer
  would_block interrupted at_eof : Answer
  fails : ℕ → Answer

-- What a protocol does in a callback, besides returning or raising.
pub data Action : Type 0 where
  pause resume close_it abort_it : Action
  -- `set_protocol`, with a buffered protocol or a simple one
  switch : Bool → Action

pub record Reaction : Type 0 where
  pub actions : List Action
  pub raises : Bool

pub data Exc : Type 0 where
  os_error : ℕ → Exc
  protocol_error empty_buffer : Exc

pub data Event : Type 0 where
  add_reader remove_reader eof_received : Event
  data_received : List ℕ → Event
  call_soon_finalize : Option Exc → Event
  exception_handler : Exc → Event

pub record Reader : Type 0 where
  pub stream : List ℕ
  pub script : List Answer
  -- the sizes of the buffers that `get_buffer` returns, what the callbacks do, and what
  -- `eof_received` returns
  pub buffers : List ℕ
  pub reactions : List Reaction
  pub keep_open : Bool
  pub backlog_empty : Bool
  pub buffered : Bool
  pub read_paused : Bool
  pub closing : Bool
  pub finalizing_close : Bool
  pub protocol_connected : Bool
  pub protocol_eof_received : Bool
  -- whether the event loop watches the descriptor for reading
  pub reader : Bool
  -- the bytes that the protocol has been handed
  pub handed : List ℕ
  pub trace : List Event

-- A method returns, or an exception leaves it.
pub data Reply {ℓ} (A : Type ℓ) : Type ℓ where
  ok : A → Reply A
  raised : Exc → Reply A

abbrev pub emit : Event → Reader → Reader
emit e s = record s { trace = e ∷ s.trace }

-- `_pause_reading`
unfoldable pub pause_reading_now : Reader → Reader
pause_reading_now s =
    if s.read_paused
    then s
    else emit remove_reader (record s { read_paused = true; reader = false })

unfoldable pub pause_reading : Reader → Reader
pause_reading s = if s.closing || s.read_paused then s else pause_reading_now s

unfoldable pub resume_reading : Reader → Reader
resume_reading s =
    if s.closing || not s.read_paused
    then s
    else emit add_reader (record s { read_paused = false; reader = true })

unfoldable pub schedule_finalize_close : Option Exc → Reader → Reader
schedule_finalize_close exc s = emit (call_soon_finalize exc) (record s { finalizing_close = true })

-- `WritableTransport.close`
unfoldable pub close_now : Reader → Reader
close_now s =
    let t = pause_reading_now (record s { closing = true }) in
    if t.backlog_empty then schedule_finalize_close none t else t

unfoldable pub close : Reader → Reader
close s = if s.closing then s else close_now s

unfoldable pub start_closing : Reader → Reader
start_closing s = if s.closing then s else pause_reading_now (record s { closing = true })

-- `WritableTransport._force_close`
unfoldable pub force_close : Option Exc → Reader → Reader
force_close exc s =
    if s.finalizing_close
    then s
    else schedule_finalize_close exc (start_closing (record s { backlog_empty = true }))

-- `_handle_error` with `FDTransport._should_report_fatal_error`
unfoldable pub handle_error : Exc → Reader → Reader
handle_error (os_error n) s = force_close (some (os_error n)) s
handle_error e s = force_close (some e) (emit (exception_handler e) s)

unfoldable pub act : Action → Reader → Reader
act pause s = pause_reading s
act resume s = resume_reading s
act close_it s = close s
act abort_it s = force_close none s
act (switch b) s = record s { buffered = b }

unfoldable pub act_all : List Action → Reader → Reader
act_all [] s = s
act_all (a ∷ rest) s = act_all rest (act a s)

-- A callback: the protocol does what it does, and returns or raises.
unfoldable pub react : List Reaction → Reader → Reader × Reply (Unit {0})
react [] s = (s, ok tt)
react (r ∷ rs) s = (
  act_all r.actions (record s { reactions = rs }),
  if r.raises then raised protocol_error else ok tt,
)

-- `_call_protocol_data_received` and `_call_protocol_buffer_updated`, with the bytes that were read.
unfoldable pub hand : List ℕ → Reader → Reader × Reply (Unit {0})
hand d s = react s.reactions (emit (data_received d) (record s { handed = s.handed ++ d }))

-- What `aiofn_read` returns: bytes, none of them at the end of the stream, or -1, or an exception.
pub data Got : Type 0 where
  got : List ℕ → Got
  again : Got
  failed : Exc → Got

-- `aiofn_read` of up to `len` bytes. A system that has nothing to hand out would block.
unfoldable pub read_script : ℕ → List Answer → Reader → Reader × Got
read_script len [] s = (record s { script = [] }, again)
read_script len (gives n ∷ script) s =
    let d = take (min (suc n) len) s.stream in
    (
      record s { script = script; stream = drop (min (suc n) len) s.stream },
      if is_empty d then again else got d,
    )
read_script len (would_block ∷ script) s = (record s { script = script }, again)
read_script len (interrupted ∷ script) s = read_script len script s
read_script len (at_eof ∷ script) s = (record s { script = script }, got [])
read_script len (fails e ∷ script) s = (record s { script = script }, failed (os_error e))

unfoldable pub aiofn_read : ℕ → Reader → Reader × Got
aiofn_read len s = read_script len s.script s

abbrev pub data_received_max_size : ℕ
data_received_max_size = 262144

abbrev pub max_read_bytes_per_cycle_hint : ℕ
max_read_bytes_per_cycle_hint = 262144

-- `_call_protocol_eof_received`
unfoldable pub eof_answer : Bool → Reader × Reply (Unit {0}) → Reader × Reply Bool
eof_answer keep_open (s, ok u) = (s, ok keep_open)
eof_answer keep_open (s, raised e) = (s, raised e)

unfoldable pub call_eof_received : Reader → Reader × Reply Bool
call_eof_received s =
    if not s.protocol_connected || s.protocol_eof_received
    then (s, ok false)
    else eof_answer s.keep_open
        (react s.reactions (emit eof_received (record s { protocol_eof_received = true })))

-- `_read_ready__on_eof`
unfoldable pub after_eof : Reader × Reply Bool → Reader × Reply (Unit {0})
after_eof (s, raised e) = (s, raised e)
after_eof (s, ok true) = (emit remove_reader (record s { reader = false }), ok tt)
after_eof (s, ok false) = (close s, ok tt)

unfoldable pub on_eof : Reader → Reader × Reply (Unit {0})
on_eof s = after_eof (call_eof_received s)

-- `_call_protocol_get_buffer`: the size of the buffer, past the list that of a common one.
unfoldable pub buffer_size : List ℕ → Reader → Reader × Reply ℕ
buffer_size [] s = (s, ok 65536)
buffer_size (n ∷ ns) s = (record s { buffers = ns }, if n == 0 then raised empty_buffer else ok n)

unfoldable pub buffer_answer : List ℕ → Reader × Reply (Unit {0}) → Reader × Reply ℕ
buffer_answer sizes (s, ok u) = buffer_size sizes s
buffer_answer sizes (s, raised e) = (s, raised e)

unfoldable pub get_buffer : List ℕ → Reader → Reader × Reply ℕ
get_buffer sizes s = buffer_answer sizes (react s.reactions s)

-- The condition of the loops, with the bytes read so far.
unfoldable pub may_read : ℕ → Reader → Bool
may_read total s =
    ltb total max_read_bytes_per_cycle_hint && not (s.finalizing_close || s.read_paused)

-- A round that read bytes goes on unless it read less than it asked for, or the protocol has been
-- switched to the other kind.
unfoldable pub go_on :
    Bool
    → ℕ
    → ℕ
    → (ℕ → Reader → Reader × Reply (Unit {0}))
    → Reader × Reply (Unit {0})
    → Reader × Reply (Unit {0})
go_on kind limit n next (s, raised e) = (s, raised e)
go_on kind limit n next (s, ok u) =
    if ltb n limit || not (if s.buffered then kind else not kind) then (s, ok tt) else next n s

unfoldable pub after_read :
    Bool → ℕ → (ℕ → Reader → Reader × Reply (Unit {0})) → Reader × Got → Reader × Reply (Unit {0})
after_read kind limit next (s, again) = (s, ok tt)
after_read kind limit next (s, failed e) = (s, raised e)
after_read kind limit next (s, got []) = on_eof s
after_read kind limit next (s, got (x ∷ d)) =
    go_on kind limit (length (x ∷ d)) next (hand (x ∷ d) s)

-- `_read_ready__data_received`, over so many rounds, with the bytes read so far.
unfoldable pub simple_loop : ℕ → ℕ → Reader → Reader × Reply (Unit {0})
simple_loop zero total s = (s, ok tt)
simple_loop (suc fuel) total s =
    if may_read total s
    then after_read false data_received_max_size (λ n t. simple_loop fuel (total + n) t)
        (aiofn_read data_received_max_size s)
    else (s, ok tt)

-- `_read_ready__get_buffer`
unfoldable pub into_buffer :
    (ℕ → Reader → Reader × Reply (Unit {0})) → Reader × Reply ℕ → Reader × Reply (Unit {0})
into_buffer next (s, raised e) = (s, raised e)
into_buffer next (s, ok len) = after_read true len next (aiofn_read len s)

unfoldable pub buffered_loop : ℕ → ℕ → Reader → Reader × Reply (Unit {0})
buffered_loop zero total s = (s, ok tt)
buffered_loop (suc fuel) total s =
    if may_read total s
    then into_buffer (λ n t. buffered_loop fuel (total + n) t) (get_buffer s.buffers s)
    else (s, ok tt)

unfoldable pub guard : Reader × Reply (Unit {0}) → Reader
guard (s, ok u) = s
guard (s, raised e) = handle_error e s

-- `SelectorSocketTransport._read_ready`. A round reads a byte at least, so that the budget bounds
-- the rounds.
unfoldable pub read_ready : Reader → Reader
read_ready s = guard (
    if s.buffered
    then buffered_loop max_read_bytes_per_cycle_hint 0 s
    else simple_loop max_read_bytes_per_cycle_hint 0 s)

-- `SelectorReadPipeTransport._read_ready`, and its errors: EIO is not reported, and another OSError
-- is. A read pipe has no backlog, and its `close` is `abort`.
abbrev pub eio : ℕ
eio = 5

unfoldable pub should_report : Exc → Bool
should_report (os_error n) = not (n == eio)
should_report e = true

unfoldable pub pipe_error : Exc → Reader → Reader
pipe_error e s = force_close (some e) (if should_report e then emit (exception_handler e) s else s)

unfoldable pub pipe_guard : Reader × Reply (Unit {0}) → Reader
pipe_guard (s, ok u) = s
pipe_guard (s, raised e) = pipe_error e s

unfoldable pub pipe_eof : Reader × Reply Bool → Reader × Reply (Unit {0})
pipe_eof (s, ok keep_open) = (force_close none s, ok tt)
pipe_eof (s, raised e) = (s, raised e)

unfoldable pub pipe_read : Reader × Got → Reader × Reply (Unit {0})
pipe_read (s, again) = (s, ok tt)
pipe_read (s, failed e) = (s, raised e)
pipe_read (s, got []) = pipe_eof (call_eof_received s)
pipe_read (s, got (x ∷ d)) = hand (x ∷ d) s

unfoldable pub pipe_read_ready : Reader → Reader
pipe_read_ready s = pipe_guard (pipe_read (aiofn_read data_received_max_size s))

-- `_call_protocol_connection_made`, whose exception goes to the event loop, and the `add_reader` that
-- the constructor has scheduled behind it, which runs whatever `connection_made` did.
unfoldable pub call_connection_made : Reader → Reader
call_connection_made s =
    if s.protocol_connected || s.finalizing_close
    then s
    else (react s.reactions (record s { protocol_connected = true })).0

unfoldable pub first_add_reader : Reader → Reader
first_add_reader s = emit add_reader (record s { reader = true })

-- A call of the client, or an event.
pub data Op : Type 0 where
  client_call : Action → Op
  connection_made_event add_reader_event : Op
  read_event pipe_event : Op

unfoldable pub step : Op → Reader → Reader
step (client_call a) s = act a s
step connection_made_event s = call_connection_made s
step add_reader_event s = first_add_reader s
step read_event s = if s.reader then read_ready s else s
step pipe_event s = if s.reader then pipe_read_ready s else s

unfoldable pub run : List Op → Reader → Reader
run [] s = s
run (o ∷ ops) s = run ops (step o s)
