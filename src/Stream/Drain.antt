-- ===== src/Stream/Drain.antt =====
-- `_write_ready` of `StreamTransport` (aiofastnet/transport.pyx): the backlog is sent while the
-- socket takes it. The loop runs on fuel, one more than the requests that are queued.
use aiofastnet.Base.{
  ℕ, zero, suc, ◌-◌, Bool, true, false, Option, none, some, List, [], ◌∷◌, drop, length, leb, ◌||◌,
  ◌==◌, if◌then◌else◌,
}
use aiofastnet.Stream.Kernel.{Kernel, Exc, assertion_error, index_error, type_error}
use aiofastnet.Stream.State.{
  Stream, Request, write_request, sendfile_request, SendFileRequest, emit, waiter_result,
  shutdown_write, maybe_resume, stop_backlog_writing, schedule_finalize_close, handle_error, close,
}
use aiofastnet.Base.{◌||◌}
use aiofastnet.Stream.Lines.{Flushed, flushed, try_writelines, backlog_ranges}
use aiofastnet.Stream.Sendfile.{Transferred, complete, try_sendfile}

-- The loop of `_consume_write_backlog`; `none` stands for an exception of its first line.
unfoldable pub consume : List Request → ℕ → Option (List Request)
consume [] n = if n == 0 then some [] else none
consume (write_request d ∷ rest) n = elim (n == 0) [
  | true ↦ some (write_request d ∷ rest)
  | false ↦ elim (leb (length d) n) [
    | true ↦ consume rest (n - length d)
    | false ↦ some (write_request (drop n d) ∷ rest)
  ]
]
consume (sendfile_request r ∷ rest) n = if n == 0 then some (sendfile_request r ∷ rest) else none

-- What one round of the loop gives: `all_sent`, or what was raised.
pub data Round : Type 0 where
  went : Bool → Round
  broke : Exc → Round

-- `_consume_write_backlog(bytes_sent)`, after its assertion.
unfoldable pub consume_write_backlog : Bool → ℕ → Stream → Stream × Round
unfolding consume
consume_write_backlog all_sent n s =
    if leb n s.write_backlog_size
    then elim (consume s.write_backlog n) [
      | none ↦ (record s { write_backlog_size = s.write_backlog_size - n }, broke type_error)
      | some q ↦ (
        record s { write_backlog = q; write_backlog_size = s.write_backlog_size - n },
        went all_sent,
      )
    ]
    else (s, broke assertion_error)

abbrev pub after_flush : Stream → Kernel × Flushed → Stream × Round
after_flush s (k, flushed all_sent n) = consume_write_backlog all_sent n (record s { kernel = k })
after_flush s (k, Flushed.broke e) = (record s { kernel = k }, broke e)

abbrev pub resolve : Option ℕ → Stream → Stream
resolve none s = s
resolve (some w) s = emit (waiter_result w) s

-- `_try_sendfile_from_backlog_top`, of a request and those behind it.
abbrev pub after_transfer :
    Stream
    → SendFileRequest
    → List Request
    → SendFileRequest × Kernel × Transferred
    → Stream × Round
after_transfer s r rest (r', k, complete true) = (
  resolve r'.waiter (record s {
    kernel = k;
    write_backlog = rest;
    write_backlog_size = s.write_backlog_size - (r.count - r'.count);
  }),
  went true,
)
after_transfer s r rest (r', k, complete false) = (
  record s {
    kernel = k;
    write_backlog = sendfile_request r' ∷ rest;
    write_backlog_size = s.write_backlog_size - (r.count - r'.count);
  },
  went false,
)
after_transfer s r rest (r', k, Transferred.broke e) =
    (record s { kernel = k; write_backlog = sendfile_request r' ∷ rest }, broke e)

-- The body of the loop, by the front of the backlog.
unfoldable pub round : List Request → Stream → Stream × Round
round [] s = (s, broke index_error)
round (write_request d ∷ rest) s =
    after_flush s (try_writelines (backlog_ranges (write_request d ∷ rest)) s.kernel)
round (sendfile_request r ∷ rest) s = after_transfer s r rest (try_sendfile r s.kernel)

-- The outcome of the loop: `none` when the fuel runs out, else the exception if one was raised.
abbrev pub Drained : Type 0
Drained = Option (Stream × Option Exc)

-- The test `all_sent` after a round.
abbrev pub after_round : (Stream → Drained) → Stream × Round → Drained
after_round rest (s, went true) = rest s
after_round rest (s, went false) = some (s, none)
after_round rest (s, broke e) = some (s, some e)

-- `while self._write_backlog_size > 0 and all_sent`
unfoldable pub drain : ℕ → Stream → Drained
drain zero s = none
drain (suc f) s = elim (s.write_backlog_size == 0) [
  | true ↦ some (s, none)
  | false ↦ after_round (λ t. drain f t) (round s.write_backlog s)
]

-- `_write_eof_now`
unfoldable pub write_eof_now : Stream → Stream
unfolding close
write_eof_now s = if s.is_socket then emit shutdown_write s else close s

-- What `_write_ready` does when the backlog is empty.
unfoldable pub when_empty : Stream → Stream
unfolding stop_backlog_writing schedule_finalize_close write_eof_now
when_empty s =
    let s1 = stop_backlog_writing s in
    if s1.closing
    then if s1.finalizing_close then s1 else schedule_finalize_close none s1
    else if s1.write_eof_called
    then write_eof_now s1
    else s1

-- The `else` part of `_write_ready`.
unfoldable pub after_drain : Stream → Stream
unfolding maybe_resume when_empty
after_drain s = let s1 = maybe_resume s in if s1.write_backlog_size == 0 then when_empty s1 else s1

abbrev pub finish_drain : Stream → Drained → Stream
finish_drain s none = s
finish_drain s (some (t, none)) = after_drain t
finish_drain s (some (t, some e)) = handle_error e t

unfoldable pub write_ready : Stream → Stream
write_ready s =
    if s.finalizing_close then s else finish_drain s (drain (suc (length s.write_backlog)) s)

-- `StreamTransport.write_eof`
unfoldable pub write_eof : Stream → Stream
unfolding write_eof_now
write_eof s =
    if s.closing || s.write_eof_called
    then s
    else let s1 = record s { write_eof_called = true } in
      if s1.write_backlog_size == 0 then write_eof_now s1 else s1
