-- ===== src/Stream/Calls/Flow.antt =====
-- Flow control: the calls of `pause_writing` and `resume_writing` (aiofastnet/transport.pyx).
use aiofastnet.Base.{
  ℕ, if◌then◌else◌, sym, ◌∙◌, subst, if-cases, ◌==◌, ◌≡◌, refl, Bool, true, false, Option, none,
  some, List, [], ◌∷◌, arith,
}
use aiofastnet.Stream.Kernel.{Answer, Exc}
use aiofastnet.Stream.Watermarks.{
  Call, pause_writing, resume_writing, maybe_pause_protocol, maybe_resume_protocol,
}
use aiofastnet.Stream.State.{
  Stream, Request, write_request, sendfile_request, Event, protocol_call, init, maybe_pause,
  maybe_resume, start_backlog_writing, stop_backlog_writing, schedule_finalize_close, settle_waiter,
  settle_waiters, clear_write_backlog, pause_reading_now, force_close, close, finalize_close,
  call_connection_made,
}
use aiofastnet.Stream.Run.{Op, run}
use aiofastnet.Stream.Stable.{Stable, IsQuiet, warns, reports, shuts, resolves}
use aiofastnet.Stream.Stable.Steps.{on_run}

-- The flow-control calls of a trace, newest first.
abbrev pub call_of : Event → List Call → List Call
call_of (protocol_call c) cs = c ∷ cs
call_of _ cs = cs

abbrev pub flow_calls : List Event → List Call
flow_calls [] = []
flow_calls (e ∷ t) = call_of e (flow_calls t)

-- Whether the last call was a pause.
abbrev pub is_paused : List Call → Bool
is_paused [] = false
is_paused (pause_writing ∷ cs) = true
is_paused (resume_writing ∷ cs) = false

-- The calls alternate, beginning with a pause.
abbrev pub Alternates : List Call → Type 0
Alternates [] = Unit
Alternates (pause_writing ∷ cs) = (is_paused cs ≡ false) × Alternates cs
Alternates (resume_writing ∷ cs) = (is_paused cs ≡ true) × Alternates cs

-- While the transport has the protocol, it remembers which call was the last.
abbrev pub IsPaced : Stream → Type 0
IsPaced s =
    Alternates (flow_calls s.trace)
    × (s.protocol_dropped ≡ false → is_paused (flow_calls s.trace) ≡ s.watermarks.paused)

settle_waiter-flow :
    (exc : Option Exc) (w : Option ℕ) (t : List Event)
    → flow_calls (settle_waiter exc w t) ≡ flow_calls t
settle_waiter-flow exc none t = refl
settle_waiter-flow none (some w) t = refl
settle_waiter-flow (some e) (some w) t = refl

settle_waiters-flow :
    (exc : Option Exc) (q : List Request) (t : List Event)
    → flow_calls (settle_waiters exc q t) ≡ flow_calls t
unfolding settle_waiters
settle_waiters-flow exc [] t = refl
settle_waiters-flow exc (write_request d ∷ q) t = settle_waiters-flow exc q t
settle_waiters-flow exc (sendfile_request r ∷ q) t =
    settle_waiters-flow exc q (settle_waiter exc r.waiter t) ∙ settle_waiter-flow exc r.waiter t

quiet-flow : (e : Event) (t : List Event) → IsQuiet e → flow_calls (e ∷ t) ≡ flow_calls t
quiet-flow e t warns = refl
quiet-flow e t (reports x) = refl
quiet-flow e t shuts = refl
quiet-flow e t (resolves w) = refl

pause-IsPaced : (s : Stream) → IsPaced s → IsPaced (maybe_pause s)
unfolding maybe_pause maybe_pause_protocol
pause-IsPaced s p = ground arith

resume-IsPaced : (s : Stream) → IsPaced s → IsPaced (maybe_resume s)
unfolding maybe_resume maybe_resume_protocol
resume-IsPaced s p = ground arith

start-IsPaced : (s : Stream) → IsPaced s → IsPaced (start_backlog_writing s)
unfolding start_backlog_writing
start-IsPaced s p = ground arith

stop-IsPaced : (s : Stream) → IsPaced s → IsPaced (stop_backlog_writing s)
unfolding stop_backlog_writing
stop-IsPaced s p = ground arith

pause_reading-IsPaced : (s : Stream) → IsPaced s → IsPaced (pause_reading_now s)
unfolding pause_reading_now
pause_reading-IsPaced s p = ground arith

clear-IsPaced : (exc : Option Exc) (s : Stream) → IsPaced s → IsPaced (clear_write_backlog exc s)
unfolding clear_write_backlog
clear-IsPaced exc s p =
    subst (λ cs. Alternates cs × (s.protocol_dropped ≡ false → is_paused cs ≡ s.watermarks.paused))
      (sym (settle_waiters-flow exc s.write_backlog s.trace)) p

schedule-IsPaced :
    (exc : Option Exc) (s : Stream) → IsPaced s → IsPaced (schedule_finalize_close exc s)
unfolding schedule_finalize_close
schedule-IsPaced exc s p = p

force_close-IsPaced : (exc : Option Exc) (s : Stream) → IsPaced s → IsPaced (force_close exc s)
unfolding force_close
force_close-IsPaced exc s p =
    let s1 : Stream = if s.closing then s else pause_reading_now (record s { closing = true }) in
    let p1 : IsPaced s1 =
      if-cases IsPaced s.closing s (pause_reading_now (record s { closing = true })) (λ _. p)
        (λ _. pause_reading-IsPaced (record s { closing = true }) p) in
    if-cases IsPaced s.finalizing_close s
      (schedule_finalize_close exc (clear_write_backlog exc (stop_backlog_writing s1))) (λ _. p)
      (λ _.
        schedule-IsPaced exc (clear_write_backlog exc (stop_backlog_writing s1))
          (clear-IsPaced exc (stop_backlog_writing s1) (stop-IsPaced s1 p1)))

close-IsPaced : (s : Stream) → IsPaced s → IsPaced (close s)
unfolding close
close-IsPaced s p =
    let s1 = pause_reading_now (record s { closing = true }) in
    let p1 = pause_reading-IsPaced (record s { closing = true }) p in
    if-cases IsPaced s.closing s _ (λ _. p)
      (λ _.
        if-cases IsPaced (s1.write_backlog_size == 0) (schedule_finalize_close none s1) s1
          (λ _. schedule-IsPaced none s1 p1) (λ _. p1))

finalize-IsPaced : (s : Stream) → IsPaced s → IsPaced (finalize_close s)
unfolding finalize_close
finalize-IsPaced s p = ground arith

made-IsPaced : (s : Stream) → IsPaced s → IsPaced (call_connection_made s)
unfolding call_connection_made
made-IsPaced s p = ground arith

paced : Stable IsPaced
paced = record {
  on_kernel = λ k s p. p;
  on_backlog = λ q n s p. p;
  on_waiter = λ w s p. p;
  on_count = λ n s p. p;
  on_eof = λ s p. p;
  on_limits = λ low high s p. p;
  on_event = λ e q s p.
      subst
        (λ cs. Alternates cs × (s.protocol_dropped ≡ false → is_paused cs ≡ s.watermarks.paused))
        (sym (quiet-flow e s.trace q)) p;
  on_pause = pause-IsPaced;
  on_resume = resume-IsPaced;
  on_start = start-IsPaced;
  on_stop = stop-IsPaced;
  on_force_close = force_close-IsPaced;
  on_close = close-IsPaced;
  on_schedule = λ s shut live p. schedule-IsPaced none s p;
  on_finalize = finalize-IsPaced;
  on_made = made-IsPaced;
}

-- Over any history of calls on a new transport the protocol gets `pause_writing` and
-- `resume_writing` in turn, beginning with `pause_writing`; and until `_finalize_close` drops the
-- protocol, the transport remembers which was the last.
pub run-Alternates :
    (ops : List Op) (socket server able : Bool) (script : List Answer)
    → IsPaced (run ops (init socket server able script))
run-Alternates ops socket server able script =
    on_run paced ops (init socket server able script) (start socket server able script)
  where
    start : (b c d : Bool) (t : List Answer) → IsPaced (init b c d t)
    start b c d t = unfold init in (tt, λ _. refl)
