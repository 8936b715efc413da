-- ===== src/Stream/Stable.antt =====
-- An invariant of a stream transport need only be shown for the parts that its calls are made of
-- (aiofastnet/transport.pyx).
pub mod Writes
pub mod Steps
use aiofastnet.Base.{
  ℕ, zero, suc, ◌+◌, ◌-◌, ◌≡◌, refl, ◌⊎◌, Bool, true, false, not, ◌||◌, ◌&&◌, Option, none, some,
  List, [], ◌∷◌, ◌++◌, length, leb, ◌==◌, inl, inr, arith, Bool-cases, Option-cases, if-cases,
  if◌then◌else◌,
}
use aiofastnet.Buffer.{Buffer, unpack, maybe_copy}
use aiofastnet.Stream.Kernel.{Kernel, Exc, aiofn_write}
use aiofastnet.Stream.Watermarks.{Watermarks, set_limits}
use aiofastnet.Stream.State.{
  Stream, Request, write_request, sendfile_request, SendFileRequest, Event, log_warning,
  exception_handler, shutdown_write, waiter_result, emit, maybe_pause, maybe_resume,
  start_backlog_writing, stop_backlog_writing, schedule_finalize_close, force_close, close,
  should_report, handle_error, finalize_close, call_connection_made,
}
use aiofastnet.Stream.Write.{
  Tried, sent_all, left, broke, after_try, append_request, enqueue, write_now, write_data,
  write_pointer_data, count_closed_write, pre_write_check, write_nocheck, write_c, try_write,
  log_threshold,
}
use aiofastnet.Stream.Lines.{
  Flushed, flushed, append_lines_tail, queue_lines, after_lines, lines_now, write_lines,
  writelines_nocheck, try_writelines, ranges, line_request, backlog_ranges,
}
use aiofastnet.Stream.Lines
use aiofastnet.Stream.Sendfile.{
  Transferred, complete, enqueue_sendfile, after_sendfile, start_sendfile, start_made, sendfile,
  make_sendfile_request, try_sendfile,
}
use aiofastnet.Stream.Sendfile
use aiofastnet.Stream.Drain.{
  Round, went, consume, consume_write_backlog, after_flush, resolve, after_transfer, round, Drained,
  after_round, drain, write_eof_now, when_empty, after_drain, finish_drain, write_ready, write_eof,
}
use aiofastnet.Stream.Drain
use aiofastnet.Stream.Run.{
  Op, write, write_pointer, writelines, send_file, set_buffer_limits, write_eof_call, close_call,
  abort_call, connection_made_callback, write_ready_callback, finalize_callback,
  set_write_buffer_limits, step, run,
}

-- The calls that are only noted.
pub data IsQuiet : Event → Type 0 where
  warns : IsQuiet log_warning
  reports : (e : Exc) → IsQuiet (exception_handler e)
  shuts : IsQuiet shutdown_write
  resolves : (w : ℕ) → IsQuiet (waiter_result w)

pub record Stable {ℓ} (P : Stream → Type ℓ) : Type ℓ where
  -- fields that the invariant does not constrain
  pub on_kernel : (k : Kernel) (s : Stream) → P s → P (record s { kernel = k })
  pub on_backlog :
      (q : List Request) (n : ℕ) (s : Stream)
      → P s
      → P (record s { write_backlog = q; write_backlog_size = n })
  pub on_waiter : (w : ℕ) (s : Stream) → P s → P (record s { next_waiter = w })
  pub on_count : (n : ℕ) (s : Stream) → P s → P (record s { closed_write_count = n })
  pub on_eof : (s : Stream) → P s → P (record s { write_eof_called = true })
  pub on_limits :
      (low high : ℕ) (s : Stream)
      → P s
      → P (record s { watermarks = record s.watermarks { low_water = low; high_water = high } })
  pub on_event : (e : Event) → IsQuiet e → (s : Stream) → P s → P (emit e s)
  -- the parts of the calls
  pub on_pause : (s : Stream) → P s → P (maybe_pause s)
  pub on_resume : (s : Stream) → P s → P (maybe_resume s)
  pub on_start : (s : Stream) → P s → P (start_backlog_writing s)
  pub on_stop : (s : Stream) → P s → P (stop_backlog_writing s)
  pub on_force_close : (e : Option Exc) (s : Stream) → P s → P (force_close e s)
  pub on_close : (s : Stream) → P s → P (close s)
  pub on_schedule :
      (s : Stream)
      → s.closing ≡ true
      → s.finalizing_close ≡ false
      → P s
      → P (schedule_finalize_close none s)
  pub on_finalize : (s : Stream) → P s → P (finalize_close s)
  pub on_made : (s : Stream) → P s → P (call_connection_made s)
