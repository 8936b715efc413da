-- ===== src/Datagram.antt =====
-- The write side of a datagram transport over a selector: `DatagramTransport`
-- (aiofastnet/transport.pyx) and the `_write_ready` of `SelectorDatagramTransport`
-- (aiofastnet/selector_transport.pyx), with `aiofn_sendto` (aiofastnet/utils.pyx). What the system
-- answers is a list that the environment chooses. Payloads are buffers, so that the only exception of
-- a send is an OSError, which goes to `error_received`. That callback does not call back. A history
-- ends before the event loop makes the call of `_finalize_close`.
pub mod Order
use aiofastnet.Base.{
  ℕ, ◌+◌, ◌-◌, Bool, true, false, not, ◌&&◌, ◌||◌, Option, none, some, is_some, List, [], ◌∷◌, ◌++◌,
  leb, ◌==◌, if◌then◌else◌,
}
use aiofastnet.Buffer.{Buffer, unpack, items, maybe_copy}
use aiofastnet.Stream.Watermarks.{Watermarks, Call, maybe_pause_protocol, maybe_resume_protocol}

-- A datagram and the address that it goes to, as `sendto` leaves it, with the `len` of the buffer that
-- is kept of it, which counts items. Addresses are numbers.
pub record Datagram : Type 0 where
  pub payload : List ℕ
  pub len : ℕ
  pub addr : Option ℕ

pub data Answer : Type 0 where
  takes would_block interrupted : Answer
  fails : ℕ → Answer

-- A call of the system that was not for nothing: the datagram went out, or was refused.
pub record Attempt : Type 0 where
  pub datagram : Datagram
  pub went_out : Bool

pub data Exc : Type 0 where
  invalid_address : Exc
  bad_address : Option ℕ → Exc

pub data Event : Type 0 where
  protocol_call : Call → Event
  error_received : ℕ → Event
  add_writer remove_writer remove_reader log_warning call_soon_finalize : Event

pub record Sender : Type 0 where
  pub attempts : List Attempt
  pub script : List Answer
  -- the address that the transport was made with, and whether the socket is connected
  pub address : Option ℕ
  pub has_connection : Bool
  pub write_backlog : List Datagram
  pub write_backlog_size : ℕ
  pub watermarks : Watermarks
  pub closed_write_count : ℕ
  pub write_ready_registered : Bool
  pub read_paused : Bool
  pub closing : Bool
  pub finalizing_close : Bool
  pub trace : List Event

abbrev pub emit : Event → Sender → Sender
emit e s = record s { trace = e ∷ s.trace }

abbrev pub emit_call : Option Call → Sender → Sender
emit_call none s = s
emit_call (some c) s = emit (protocol_call c) s

-- What a datagram counts for in the backlog of a selector transport.
abbrev pub header_size : ℕ
header_size = 8

unfoldable pub weight : Datagram → ℕ
weight d = d.len + header_size

-- What is kept of a buffer.
unfoldable pub kept : Buffer → Option ℕ → Datagram
kept b addr = record { payload = unpack b; len = items (maybe_copy b); addr = addr }

unfoldable pub maybe_pause : Sender → Sender
maybe_pause s =
    let w = maybe_pause_protocol s.watermarks s.write_backlog_size in
    emit_call w.1 (record s { watermarks = w.0 })

unfoldable pub maybe_resume : Sender → Sender
maybe_resume s =
    let w = maybe_resume_protocol s.watermarks s.write_backlog_size in
    emit_call w.1 (record s { watermarks = w.0 })

unfoldable pub start_backlog_writing : Sender → Sender
start_backlog_writing s =
    if s.finalizing_close || s.write_ready_registered
    then s
    else emit add_writer (record s { write_ready_registered = true })

unfoldable pub stop_backlog_writing : Sender → Sender
stop_backlog_writing s =
    if s.write_ready_registered
    then emit remove_writer (record s { write_ready_registered = false })
    else s

unfoldable pub pause_reading_now : Sender → Sender
pause_reading_now s =
    if s.read_paused then s else emit remove_reader (record s { read_paused = true })

unfoldable pub schedule_finalize_close : Sender → Sender
schedule_finalize_close s = emit call_soon_finalize (record s { finalizing_close = true })

unfoldable pub close_now : Sender → Sender
close_now s =
    let t = pause_reading_now (record s { closing = true }) in
    if t.write_backlog_size == 0 then schedule_finalize_close t else t

unfoldable pub close : Sender → Sender
close s = if s.closing then s else close_now s

-- `_force_close` and `_clear_write_backlog`; the backlog has no file.
unfoldable pub start_closing : Sender → Sender
start_closing s = if s.closing then s else pause_reading_now (record s { closing = true })

unfoldable pub clear_write_backlog : Sender → Sender
clear_write_backlog s = record s { write_backlog = []; write_backlog_size = 0 }

unfoldable pub force_close : Sender → Sender
force_close s =
    if s.finalizing_close
    then s
    else schedule_finalize_close (clear_write_backlog (stop_backlog_writing (start_closing s)))

-- `aiofn_sendto`: whether the datagram went out, -1, or an error.
pub data Sent : Type 0 where
  sent again : Sent
  failed : ℕ → Sent

unfoldable pub send_script : List Answer → List Answer × Sent
send_script [] = ([], again)
send_script (takes ∷ script) = (script, sent)
send_script (would_block ∷ script) = (script, again)
send_script (interrupted ∷ script) = send_script script
send_script (fails e ∷ script) = (script, failed e)

-- `_try_sendto`: a datagram that the system refuses is over too.
unfoldable pub tried : Datagram → Sender → List Answer × Sent → Sender × Bool
tried d s (script, sent) = (
  record s {
    script = script;
    attempts = s.attempts ++ record { datagram = d; went_out = true } ∷ [];
  },
  true,
)
tried d s (script, again) = (record s { script = script }, false)
tried d s (script, failed e) = (
  emit (error_received e) (record s {
    script = script;
    attempts = s.attempts ++ record { datagram = d; went_out = false } ∷ [];
  }),
  true,
)

unfoldable pub try_sendto : Datagram → Sender → Sender × Bool
try_sendto d s = tried d s (send_script s.script)

-- The `len` of the buffer that the client gave goes with its datagram.
unfoldable pub queue : ℕ → Datagram → Sender → Sender
queue n d s = maybe_pause (
    start_backlog_writing (record s {
      write_backlog = s.write_backlog ++ d ∷ [];
      write_backlog_size = s.write_backlog_size + (n + header_size);
    }))

unfoldable pub try_or_queue : ℕ → Datagram → Sender → Sender
try_or_queue n d s = let r = try_sendto d s in if r.1 then r.0 else queue n d r.0

unfoldable pub send_now : ℕ → Datagram → Sender → Sender
send_now n d s = if s.write_backlog_size == 0 then try_or_queue n d s else queue n d s

unfoldable pub count_closed : Sender → Sender
count_closed s =
    if leb 5 s.closed_write_count
    then emit log_warning (record s { closed_write_count = s.closed_write_count + 1 })
    else record s { closed_write_count = s.closed_write_count + 1 }

unfoldable pub send_or_drop : ℕ → Datagram → Sender → Sender
send_or_drop n d s =
    if s.finalizing_close && is_some s.address then count_closed s else send_now n d s

-- The address that a datagram goes to: the transport's own, if it has one, which a caller may only
-- repeat.
unfoldable pub settle_address : Option ℕ → Option ℕ → Option (Option ℕ)
settle_address none addr = some addr
settle_address (some a) none = some (some a)
settle_address (some a) (some b) = if a == b then some (some a) else none

-- `aiofn_pyaddr_to_sockaddr` for the family of the socket: the addresses that it takes.
module _ (is_valid : Option ℕ → Bool) where
  -- `_validate_address`
  unfoldable pub is_sendable : Option ℕ → Sender → Bool
  is_sendable addr s = s.has_connection || is_valid addr

  unfoldable pub send_to : Buffer → Option (Option ℕ) → Sender → Sender × Option Exc
  send_to d none s = (s, some invalid_address)
  send_to d (some addr) s =
      if is_sendable addr s
      then (send_or_drop (items d) (kept d addr) s, none)
      else (s, some (bad_address addr))

  -- `sendto_nocheck`
  unfoldable pub sendto_nocheck : Buffer → Option ℕ → Sender → Sender × Option Exc
  sendto_nocheck d addr s = send_to d (settle_address s.address addr) s

-- The loop of `_write_ready`.
unfoldable pub drain : List Datagram → Sender → Sender
drain [] s = s
drain (d ∷ ds) s =
    let r = try_sendto d s in
    let rest =
      drain ds (record r.0 {
        write_backlog = ds;
        write_backlog_size = r.0.write_backlog_size - weight d;
      }) in
    if s.write_backlog_size == 0 then s else if r.1 then rest else r.0

unfoldable pub end_drain : Sender → Sender
end_drain s = if s.closing && not s.finalizing_close then schedule_finalize_close s else s

unfoldable pub after_drain : Sender → Sender
after_drain s = if s.write_backlog_size == 0 then end_drain (stop_backlog_writing s) else s

unfoldable pub write_ready : Sender → Sender
write_ready s = after_drain (maybe_resume (drain s.write_backlog s))

-- A call of the client, or an event.
pub data Op : Type 0 where
  sendto_call : Buffer → Option ℕ → Op
  write_ready_event close_call abort_call : Op

module _ (is_valid : Option ℕ → Bool) where
  unfoldable pub step : Op → Sender → Sender
  step (sendto_call d addr) s = (sendto_nocheck is_valid d addr s).0
  step write_ready_event s = if s.write_ready_registered then write_ready s else s
  step close_call s = close s
  step abort_call s = force_close s

  unfoldable pub run : List Op → Sender → Sender
  run [] s = s
  run (o ∷ ops) s = run ops (step o s)
