-- ===== src/Stream/State/Core.antt =====
-- The part of a stream's state that the delivery of bytes depends on, and what the operations on
-- the state do to it (aiofastnet/transport.pyx).
use aiofastnet.Base.{
  ℕ, ◌≡◌, Bool, true, false, not, ◌||◌, Option, List, [], arith, ◌==◌, if◌then◌else◌,
}
use aiofastnet.Stream.Kernel.{Exc}
use aiofastnet.Stream.Watermarks.{maybe_pause_protocol, maybe_resume_protocol}
use aiofastnet.Stream.State.{
  Stream, Request, maybe_pause, maybe_resume, start_backlog_writing, stop_backlog_writing,
  force_close, close, handle_error, finalize_close, call_connection_made,
}

pub record Core : Type 0 where
  pub wire : List ℕ
  pub backlog : List Request
  pub size : ℕ
  pub registered : Bool
  pub closing : Bool
  pub finalizing : Bool

abbrev pub core : Stream → Core
core s = record {
  wire = s.kernel.wire;
  backlog = s.write_backlog;
  size = s.write_backlog_size;
  registered = s.write_ready_registered;
  closing = s.closing;
  finalizing = s.finalizing_close;
}

-- Torn down: nothing is queued or watched.
abbrev pub halted : Core → Core
halted c = record c {
  backlog = [];
  size = 0;
  registered = false;
  closing = true;
  finalizing = true;
}

pub core-maybe_pause : (s : Stream) → core (maybe_pause s) ≡ core s
unfolding maybe_pause maybe_pause_protocol
core-maybe_pause s = ground arith

pub core-maybe_resume : (s : Stream) → core (maybe_resume s) ≡ core s
unfolding maybe_resume maybe_resume_protocol
core-maybe_resume s = ground arith

pub core-start_backlog_writing :
    (s : Stream)
    → core (start_backlog_writing s)
      ≡ record (core s) { registered = (core s).registered || not (core s).finalizing }
unfolding start_backlog_writing
core-start_backlog_writing s = ground arith

pub core-stop_backlog_writing :
    (s : Stream) → core (stop_backlog_writing s) ≡ record (core s) { registered = false }
unfolding stop_backlog_writing
core-stop_backlog_writing s = ground arith

pub core-force_close :
    (exc : Option Exc) (s : Stream)
    → core (force_close exc s) ≡ (if s.finalizing_close then core s else halted (core s))
unfolding force_close
core-force_close exc s = ground arith

pub core-handle_error :
    (e : Exc) (s : Stream)
    → core (handle_error e s) ≡ (if s.finalizing_close then core s else halted (core s))
unfolding handle_error
core-handle_error e s = ground arith

pub core-close :
    (s : Stream)
    → core (close s) ≡ (
        if s.closing then core s else record (core s) {
          closing = true;
          finalizing = (core s).finalizing || (s.write_backlog_size == 0);
        })
unfolding close
core-close s = ground arith

pub core-finalize_close : (s : Stream) → core (finalize_close s) ≡ core s
unfolding finalize_close
core-finalize_close s = ground arith

pub core-call_connection_made : (s : Stream) → core (call_connection_made s) ≡ core s
unfolding call_connection_made
core-call_connection_made s = ground arith
