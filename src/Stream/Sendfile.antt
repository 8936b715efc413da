-- ===== src/Stream/Sendfile.antt =====
-- File transfers of `StreamTransport` (aiofastnet/transport.pyx). The file is its content;
-- sendfile(2) takes at least one byte while there are bytes, and reports 0 at the end of the file.
-- The interpreter retries an interrupted call.
use Prim.Native.Nat.{max}
use aiofastnet.Base.{
  ℕ, ◌+◌, ◌-◌, min, Bool, true, false, ◌||◌, not, Option, none, some, List, [], ◌∷◌, ◌++◌, take,
  drop, length, ◌==◌, if◌then◌else◌,
}
use aiofastnet.Stream.Kernel.{
  Kernel, Exc, os_error, runtime_error, value_error, not_implemented, Answer, takes, would_block,
  interrupted, fails,
}
use aiofastnet.Stream.State.{
  Stream, SendFileRequest, sendfile_request, maybe_pause, start_backlog_writing, handle_error,
}
use aiofastnet.Stream.Write.{Reply, returned, raised, awaits, append_request}

-- The bytes that a transfer still has to send.
abbrev pub remaining : SendFileRequest → List ℕ
remaining r = take r.count (drop r.offset r.file)

-- `make_sendfile_request`, of a regular file.
unfoldable pub make_sendfile_request : List ℕ → ℕ → Option ℕ → Option SendFileRequest
make_sendfile_request file offset none =
    some (record { file = file; offset = offset; count = length file - offset; waiter = none })
make_sendfile_request file offset (some count) =
    if count == 0
    then none
    else some (record {
      file = file;
      offset = offset;
      count = min count (length file - offset);
      waiter = none;
    })

-- Whether the transfer is complete, or what was raised.
pub data Transferred : Type 0 where
  complete : Bool → Transferred
  broke : Exc → Transferred

-- The request after the system took `n` bytes of it.
abbrev pub advance : ℕ → SendFileRequest → SendFileRequest
advance n r =
    if n == 0
    then record r { count = 0 }
    else record r { offset = r.offset + n; count = r.count - n }

-- How much sendfile(2) takes when it may take up to `n` bytes.
abbrev pub takes_of : ℕ → SendFileRequest → ℕ
takes_of n r = min (max n 1) (length (remaining r))

-- The part of the file that a request asks for.
abbrev pub requested : Option SendFileRequest → List ℕ
requested none = []
requested (some r) = remaining r

-- The loop of `_try_sendfile`, over the answers.
unfoldable pub sendfile_script :
    SendFileRequest → List ℕ → List Answer → SendFileRequest × Kernel × Transferred
sendfile_script r wire [] = (r, record { wire = wire; script = [] }, complete (r.count == 0))
sendfile_script r wire (takes n ∷ script) = elim (r.count == 0) [
  | true ↦ (r, record { wire = wire; script = takes n ∷ script }, complete true)
  | false ↦
      sendfile_script (advance (takes_of n r) r) (wire ++ take (takes_of n r) (remaining r)) script
]
sendfile_script r wire (would_block ∷ script) =
    if r.count == 0
    then (r, record { wire = wire; script = would_block ∷ script }, complete true)
    else (r, record { wire = wire; script = script }, complete false)
sendfile_script r wire (interrupted ∷ script) = elim (r.count == 0) [
  | true ↦ (r, record { wire = wire; script = interrupted ∷ script }, complete true)
  | false ↦ sendfile_script r wire script
]
sendfile_script r wire (fails e ∷ script) =
    if r.count == 0
    then (r, record { wire = wire; script = fails e ∷ script }, complete true)
    else (r, record { wire = wire; script = script }, broke (os_error e))

unfoldable pub try_sendfile : SendFileRequest → Kernel → SendFileRequest × Kernel × Transferred
unfolding sendfile_script
try_sendfile r k = sendfile_script r k.wire k.script

-- The transfer is queued, and its waiter made.
unfoldable pub enqueue_sendfile : SendFileRequest → Stream → Stream × Reply
unfolding append_request start_backlog_writing maybe_pause
enqueue_sendfile r s = (
  maybe_pause (
      start_backlog_writing (
        append_request (sendfile_request (record r { waiter = some s.next_waiter }))
          (record s { next_waiter = s.next_waiter + 1 }))),
  awaits s.next_waiter,
)

abbrev pub after_sendfile : Stream → SendFileRequest × Kernel × Transferred → Stream × Reply
after_sendfile s (r, k, complete true) = (record s { kernel = k }, returned)
after_sendfile s (r, k, complete false) = enqueue_sendfile r (record s { kernel = k })
after_sendfile s (r, k, broke e) = (handle_error e (record s { kernel = k }), raised e)

unfoldable pub start_sendfile : SendFileRequest → Stream → Stream × Reply
start_sendfile r s =
    if r.count == 0
    then (s, returned)
    else if s.write_backlog_size == 0
    then after_sendfile s (try_sendfile r s.kernel)
    else enqueue_sendfile r s

abbrev pub start_made : Option SendFileRequest → Stream → Stream × Reply
start_made none s = (s, raised value_error)
start_made (some r) s = start_sendfile r s

-- `sendfile(file, offset, count)`
unfoldable pub sendfile : List ℕ → ℕ → Option ℕ → Stream → Stream × Reply
sendfile file offset count s =
    if not s.sendfile_compatible
    then (s, raised not_implemented)
    else if s.write_eof_called || (s.closing || s.finalizing_close)
    then (s, raised runtime_error)
    else start_made (make_sendfile_request file offset count) s
