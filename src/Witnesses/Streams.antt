-- ===== src/Witnesses/Streams.antt =====
-- The theorems on the stream transport at concrete inputs.
use aiofastnet.Base.{
  ℕ, suc, ◌≡◌, ◌⊎◌, refl, true, false, some, List, [], ◌∷◌, ◌++◌, drop, length, All, is_some, arith,
}
use aiofastnet.Buffer.{bytes, view, unpack, copy_tail}
use aiofastnet.Buffer.Tail.{unpack-copy_tail, length-copy_tail_wide}
use aiofastnet.Stream.Kernel.{Answer, takes, would_block, interrupted, Kernel, flatten, aiofn_write}
use aiofastnet.Stream.State.{Stream, init, Request, write_request, SendFileRequest}
use aiofastnet.Stream.State.Core.{core}
use aiofastnet.Stream.Lines.{try_writelines, backlog_ranges}
use aiofastnet.Stream.Sendfile.{try_sendfile}
use aiofastnet.Stream.Drain.{consume, drain}
use aiofastnet.Stream.Run.{
  Op, write, writelines, close_call, connection_made_callback, write_ready_callback,
  set_buffer_limits, run, accepted, step,
}
use aiofastnet.Stream.Write.{write_nocheck, write_data, write_now, try_write, enqueue}
use aiofastnet.Stream.Watermarks.{maybe_pause_protocol}
use aiofastnet.Stream.Delivery.{pending, IsConsistent}
use aiofastnet.Stream.Delivery.History.{IsPlain, run_delivers, run-IsConsistent}
use aiofastnet.Stream.Delivery.Ending.{run-drains}
use aiofastnet.Stream.Delivery.Consume.{Consumes, consume-Consumes}
use aiofastnet.Stream.Delivery.Sendfile.{Transfers, try_sendfile-Transfers}
use aiofastnet.Stream.Lines.Groups.{Sends, try_writelines-Sends}
use aiofastnet.Stream.Calls.Flow.{IsPaced, run-Alternates}
use aiofastnet.Stream.Calls.Lifecycle.{IsConnection, run-IsConnection}

abbrev answers : List Answer
answers = takes 2 ∷ interrupted ∷ would_block ∷ takes 3 ∷ takes 9 ∷ []

-- A write that is sent in part, a gathered write, a readiness callback, and a close.
abbrev calls : List Op
calls =
    connection_made_callback
    ∷ set_buffer_limits (some 4) (some 1)
    ∷ write (bytes (1 ∷ 2 ∷ 3 ∷ 4 ∷ []))
    ∷ writelines (bytes (5 ∷ []) ∷ view false 2 (6 ∷ 7 ∷ []) ∷ [])
    ∷ write_ready_callback
    ∷ close_call
    ∷ []

calls-IsPlain : All IsPlain calls
calls-IsPlain = (tt, (tt, (tt, ((tt, (tt, tt)), (tt, (tt, tt))))))

abbrev queued_calls : List Op
queued_calls = write (bytes (1 ∷ 2 ∷ 3 ∷ 4 ∷ [])) ∷ []

abbrev fresh : Stream
fresh = init true false true answers

run_delivers_example :
    (rest : List ℕ) × ((run calls (init true false true answers)).kernel.wire ++ rest
      ≡ accepted calls (init true false true answers))
    × (((run calls (init true false true answers)).finalizing_close ≡ true)
        ⊎ (rest ≡ pending (run calls (init true false true answers)).write_backlog))
run_delivers_example = run_delivers calls true false true answers calls-IsPlain

run-IsConsistent_example : IsConsistent (core (run calls (init true false true answers)))
run-IsConsistent_example = run-IsConsistent calls true false true answers calls-IsPlain

run-IsConnection_example : IsConnection (run calls (init true false true answers))
run-IsConnection_example = run-IsConnection calls true false true answers

run-Alternates_example : IsPaced (run calls (init true false true answers))
run-Alternates_example = run-Alternates calls true false true answers

run-drains_example :
    is_some (
      drain
        (suc (length (run queued_calls (init true false true answers)).write_backlog))
        (run queued_calls (init true false true answers)))
    ≡ true
unfolding run step write_nocheck init write_data write_now try_write aiofn_write enqueue
    maybe_pause_protocol copy_tail
run-drains_example = run-drains queued_calls true false true answers (tt, tt) refl refl

abbrev lines : List (List ℕ)
lines = (1 ∷ 2 ∷ []) ∷ (3 ∷ []) ∷ []

abbrev two_takes : Kernel
two_takes = record { wire = []; script = takes 2 ∷ would_block ∷ [] }

try_writelines-Sends_example : Sends (flatten lines) [] 0 (try_writelines lines two_takes)
try_writelines-Sends_example = try_writelines-Sends lines two_takes (omega arith, (omega arith, tt))

abbrev transfer : SendFileRequest
transfer = record { file = 1 ∷ 2 ∷ 3 ∷ 4 ∷ []; offset = 1; count = 3; waiter = some 0 }

try_sendfile-Transfers_example : Transfers transfer [] (try_sendfile transfer two_takes)
try_sendfile-Transfers_example = try_sendfile-Transfers transfer two_takes (omega arith)

abbrev two_writes : List Request
two_writes = write_request (1 ∷ 2 ∷ []) ∷ write_request (3 ∷ 4 ∷ 5 ∷ []) ∷ []

consume-Consumes_example : Consumes two_writes 3 (consume two_writes 3)
unfolding flatten backlog_ranges
consume-Consumes_example =
    consume-Consumes two_writes 3 (omega arith, (omega arith, tt)) (omega arith)

abbrev content : List ℕ
content = 1 ∷ 2 ∷ 3 ∷ 4 ∷ []

unpack-copy_tail_example :
    unpack (copy_tail (view true 1 content) (drop 1 content) 3) ≡ drop 1 content
unpack-copy_tail_example = unpack-copy_tail (view true 1 content) 1 refl (omega arith)

length-copy_tail_wide_example : length (unpack (copy_tail (view true 2 content) (3 ∷ []) 1)) ≡ 2
length-copy_tail_wide_example =
    length-copy_tail_wide content (3 ∷ []) 2 2 1 (omega arith) refl (omega arith)
