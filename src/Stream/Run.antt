-- ===== src/Stream/Run.antt =====
-- The calls that reach a `StreamTransport` (aiofastnet/transport.pyx), from the application and
-- from the event loop, and histories of them.
use aiofastnet.Base.{
  ℕ, Bool, false, not, ◌||◌, Option, none, some, List, [], ◌∷◌, ◌++◌, if◌then◌else◌,
}
use aiofastnet.Buffer.{Buffer, unpack}
use aiofastnet.Stream.Kernel.{flatten, value_error}
use aiofastnet.Stream.Watermarks.{set_limits}
use aiofastnet.Stream.State.{
  Stream, maybe_pause, maybe_resume, close, force_close, finalize_close, call_connection_made,
}
use aiofastnet.Stream.Write.{Reply, returned, raised, write_nocheck, write_c}
use aiofastnet.Stream.Lines.{ranges, writelines_nocheck}
use aiofastnet.Stream.Sendfile.{requested, make_sendfile_request, sendfile}
use aiofastnet.Stream.Drain.{write_ready, write_eof}

-- `set_write_buffer_limits(high, low)`
unfoldable pub set_write_buffer_limits : Option ℕ → Option ℕ → Stream → Stream × Reply
unfolding maybe_pause maybe_resume
set_write_buffer_limits high low s = elim (set_limits s.watermarks high low) [
  | none ↦ (s, raised value_error)
  | some w ↦ (maybe_resume (maybe_pause (record s { watermarks = w })), returned)
]

pub data Op : Type 0 where
  write : Buffer → Op
  write_pointer : List ℕ → Op
  writelines : List Buffer → Op
  send_file : List ℕ → ℕ → Option ℕ → Op
  set_buffer_limits : Option ℕ → Option ℕ → Op
  write_eof_call close_call abort_call : Op
  -- from the event loop
  connection_made_callback write_ready_callback finalize_callback : Op

-- The event loop calls `_write_ready` only while the writer is registered.
unfoldable pub step : Op → Stream → Stream
step (write b) s = (write_nocheck b s).0
step (write_pointer d) s = (write_c d s).0
step (writelines bs) s = (writelines_nocheck bs s).0
step (send_file file offset count) s = (sendfile file offset count s).0
step (set_buffer_limits high low) s = (set_write_buffer_limits high low s).0
step write_eof_call s = write_eof s
step close_call s = close s
step abort_call s = force_close none s
step connection_made_callback s = call_connection_made s
step write_ready_callback s = if s.write_ready_registered then write_ready s else s
step finalize_callback s = finalize_close s

unfoldable pub run : List Op → Stream → Stream
run [] s = s
run (op ∷ ops) s = run ops (step op s)

-- The bytes that a call offers.
abbrev pub offered : Op → List ℕ
offered (write b) = unpack b
offered (write_pointer d) = d
offered (writelines bs) = flatten (ranges bs)
offered (send_file file offset count) = requested (make_sendfile_request file offset count)
offered _ = []

-- Whether the transport takes them: not after `write_eof` or once it is being torn down; and no
-- file after `close`, or where the platform has no sendfile.
abbrev pub open_to : Op → Stream → Bool
open_to (send_file _ _ _) s =
    if s.sendfile_compatible
    then not (s.write_eof_called || (s.closing || s.finalizing_close))
    else false
open_to _ s = not (s.write_eof_called || s.finalizing_close)

abbrev pub accepts : Op → Stream → List ℕ
accepts op s = if open_to op s then offered op else []

-- All bytes that a history makes the transport take, in order.
unfoldable pub accepted : List Op → Stream → List ℕ
accepted [] s = []
accepted (op ∷ ops) s = accepts op s ++ accepted ops (step op s)
