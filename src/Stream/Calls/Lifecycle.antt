-- ===== src/Stream/Calls/Lifecycle.antt =====
-- The calls of `connection_made` and `connection_lost` (aiofastnet/transport.pyx).
use aiofastnet.Base.{
  ℕ, sym, ap, if-cases, if◌then◌else◌, ◌≡◌, refl, Bool, true, false, ◌||◌, Option, none, some, List,
  [], ◌∷◌, ◌⊎◌, inl, inr, is_some, arith, ◌==◌, ◌∙◌,
}
use aiofastnet.Stream.Kernel.{Answer, Exc}
use aiofastnet.Stream.Watermarks.{maybe_pause_protocol, maybe_resume_protocol}
use aiofastnet.Stream.State.{
  Stream, Request, write_request, sendfile_request, Event, connection_made, connection_lost,
  close_file, init, emit, maybe_pause, maybe_resume, start_backlog_writing, stop_backlog_writing,
  schedule_finalize_close, settle_waiter, settle_waiters, clear_write_backlog, pause_reading_now,
  force_close, close, finalize_close, call_connection_made, lose_connection, detach_server,
  server_detach,
}
use aiofastnet.Stream.Run.{Op, run}
use aiofastnet.Stream.Stable.{Stable, IsQuiet, warns, reports, shuts, resolves}
use aiofastnet.Stream.Stable.Steps.{on_run}

-- What the protocol and the socket hear of a connection, newest first.
pub data Stage : Type 0 where
  made lost closed : Stage

abbrev pub stage_of : Event → List Stage → List Stage
stage_of connection_made ss = made ∷ ss
stage_of (connection_lost _) ss = lost ∷ ss
stage_of close_file ss = closed ∷ ss
stage_of _ ss = ss

abbrev pub stages : List Event → List Stage
stages [] = []
stages (e ∷ t) = stage_of e (stages t)

-- What may have been heard, by whether the protocol is connected, the end is under way, the call
-- of `_finalize_close` is outstanding, and the transport is closing.
abbrev pub Phase : Bool → Bool → Bool → Bool → List Stage → Type 0
Phase false false false closing ss = ss ≡ []
Phase true false false closing ss = ss ≡ (made ∷ [])
Phase connected false true closing ss = ⊥
Phase false true true closing ss = (closing ≡ true) × (ss ≡ [])
Phase true true true closing ss = (closing ≡ true) × (ss ≡ (made ∷ []))
Phase false true false closing ss =
    (closing ≡ true) × ((ss ≡ (closed ∷ [])) ⊎ (ss ≡ (closed ∷ lost ∷ made ∷ [])))
Phase true true false closing ss = ⊥

abbrev pub IsConnection : Stream → Type 0
IsConnection s =
    Phase s.protocol_connected s.finalizing_close (is_some s.finalize_scheduled) s.closing
      (stages s.trace)

Phase-closing : (c f o d : Bool) (ss : List Stage) → Phase c f o d ss → Phase c f o true ss
Phase-closing false false false d ss p = p
Phase-closing true false false d ss p = p
Phase-closing false true true d ss (_, q) = (refl, q)
Phase-closing true true true d ss (_, q) = (refl, q)
Phase-closing false true false d ss (_, q) = (refl, q)
Phase-closing false false true d ss p = elim p [ ]
Phase-closing true false true d ss p = elim p [ ]
Phase-closing true true false d ss p = elim p [ ]

Phase-scheduled :
    (c f o d : Bool) (ss : List Stage)
    → d ≡ true
    → f ≡ false
    → Phase c f o d ss
    → Phase c true true d ss
Phase-scheduled false false false d ss h k p = (h, p)
Phase-scheduled true false false d ss h k p = (h, p)
Phase-scheduled c true o d ss h k p = ground arith
Phase-scheduled false false true d ss h k p = elim p [ ]
Phase-scheduled true false true d ss h k p = elim p [ ]

Phase-made :
    (c f o d : Bool) (ss : List Stage)
    → (c || f) ≡ false
    → Phase c f o d ss
    → Phase true f o d (made ∷ ss)
Phase-made false false false d ss h p = ap (λ t. made ∷ t) p
Phase-made false false true d ss h p = elim p [ ]
Phase-made true f o d ss h p = ground arith
Phase-made false true o d ss h p = ground arith

Phase-lost :
    (f d : Bool) (ss : List Stage)
    → Phase true f true d ss
    → Phase false f false d (closed ∷ lost ∷ ss)
Phase-lost true d ss (h, q) = (h, inr (ap (λ t. closed ∷ lost ∷ t) q))
Phase-lost false d ss p = elim p [ ]

Phase-closed :
    (f d : Bool) (ss : List Stage) → Phase false f true d ss → Phase false f false d (closed ∷ ss)
Phase-closed true d ss (h, q) = (h, inl (ap (λ t. closed ∷ t) q))
Phase-closed false d ss p = elim p [ ]

Phase-live : (c f o d : Bool) (ss : List Stage) → d ≡ false → Phase c f o d ss → f ≡ false
Phase-live c false o d ss h p = refl
Phase-live false true true d ss h (k, q) = sym k ∙ h
Phase-live true true true d ss h (k, q) = sym k ∙ h
Phase-live false true false d ss h (k, q) = sym k ∙ h
Phase-live true true false d ss h p = elim p [ ]

settle_waiter-stages :
    (exc : Option Exc) (w : Option ℕ) (t : List Event) → stages (settle_waiter exc w t) ≡ stages t
settle_waiter-stages exc none t = refl
settle_waiter-stages none (some w) t = refl
settle_waiter-stages (some e) (some w) t = refl

settle_waiters-stages :
    (exc : Option Exc) (q : List Request) (t : List Event)
    → stages (settle_waiters exc q t) ≡ stages t
unfolding settle_waiters
settle_waiters-stages exc [] t = refl
settle_waiters-stages exc (write_request d ∷ q) t = settle_waiters-stages exc q t
settle_waiters-stages exc (sendfile_request r ∷ q) t =
    settle_waiters-stages exc q (settle_waiter exc r.waiter t) ∙ settle_waiter-stages exc r.waiter t

-- A step that the connection does not hear.
abbrev Unheard : Stream → Stream → Type 0
Unheard s t =
    (t.protocol_connected ≡ s.protocol_connected)
    × (t.finalizing_close ≡ s.finalizing_close)
    × (t.finalize_scheduled ≡ s.finalize_scheduled)
    × (t.closing ≡ s.closing)
    × (stages t.trace ≡ stages s.trace)

Unheard-IsConnection : (s t : Stream) → Unheard s t → IsConnection s → IsConnection t
Unheard-IsConnection s t (a, b, c, d, e) p = rw (a, b, c, d, e) p

quiet-stages : (e : Event) (t : List Event) → IsQuiet e → stages (e ∷ t) ≡ stages t
quiet-stages e t warns = refl
quiet-stages e t (reports x) = refl
quiet-stages e t shuts = refl
quiet-stages e t (resolves w) = refl

pause-Unheard : (s : Stream) → Unheard s (maybe_pause s)
unfolding maybe_pause maybe_pause_protocol
pause-Unheard s = ground arith

resume-Unheard : (s : Stream) → Unheard s (maybe_resume s)
unfolding maybe_resume maybe_resume_protocol
resume-Unheard s = ground arith

start-Unheard : (s : Stream) → Unheard s (start_backlog_writing s)
unfolding start_backlog_writing
start-Unheard s = ground arith

stop-Unheard : (s : Stream) → Unheard s (stop_backlog_writing s)
unfolding stop_backlog_writing
stop-Unheard s = ground arith

pause_reading-Unheard : (s : Stream) → Unheard s (pause_reading_now s)
unfolding pause_reading_now
pause_reading-Unheard s = ground arith

clear-Unheard : (exc : Option Exc) (s : Stream) → Unheard s (clear_write_backlog exc s)
unfolding clear_write_backlog
clear-Unheard exc s = (refl, refl, refl, refl, settle_waiters-stages exc s.write_backlog s.trace)

schedule-IsConnection :
    (exc : Option Exc) (s : Stream)
    → s.closing ≡ true
    → s.finalizing_close ≡ false
    → IsConnection s
    → IsConnection (schedule_finalize_close exc s)
unfolding schedule_finalize_close
schedule-IsConnection exc s shut live p =
    Phase-scheduled s.protocol_connected s.finalizing_close (is_some s.finalize_scheduled) s.closing
      (stages s.trace) shut live p

force_close-IsConnection :
    (exc : Option Exc) (s : Stream) → IsConnection s → IsConnection (force_close exc s)
unfolding force_close schedule_finalize_close
force_close-IsConnection exc s p =
    let s0 = record s { closing = true } in
    let s1 : Stream = if s.closing then s else pause_reading_now s0 in
    let s2 : Stream = clear_write_backlog exc (stop_backlog_writing s1) in
    let Ready : Stream → Type 0 =
      λ t. IsConnection t × (t.closing ≡ true) × (t.finalizing_close ≡ s.finalizing_close) in
    let p0 : IsConnection s0 =
      Phase-closing s.protocol_connected s.finalizing_close (is_some s.finalize_scheduled) s.closing
        (stages s.trace) p in
    let r1 : Ready s1 =
      if-cases Ready s.closing s (pause_reading_now s0) (λ e. (p, e, refl))
        (λ _. heard s0 (pause_reading_now s0) (pause_reading-Unheard s0) (p0, refl, refl)) in
    let r2 : Ready s2 =
      heard (stop_backlog_writing s1) s2 (clear-Unheard exc (stop_backlog_writing s1))
        (heard s1 (stop_backlog_writing s1) (stop-Unheard s1) r1) in
    if-cases IsConnection s.finalizing_close s (schedule_finalize_close exc s2) (λ _. p)
      (λ live.
        Phase-scheduled s2.protocol_connected s2.finalizing_close (is_some s2.finalize_scheduled)
          s2.closing (stages s2.trace) r2.1 (r2.2 ∙ live) r2.0)
  where
    heard :
        (a b : Stream)
        → Unheard a b
        → IsConnection a × (a.closing ≡ true) × (a.finalizing_close ≡ s.finalizing_close)
        → IsConnection b × (b.closing ≡ true) × (b.finalizing_close ≡ s.finalizing_close)
    heard a b u (q, c, f) = (Unheard-IsConnection a b u q, u.3 ∙ c, u.1 ∙ f)

close-IsConnection : (s : Stream) → IsConnection s → IsConnection (close s)
unfolding close
close-IsConnection s p =
    let s0 = record s { closing = true } in
    let s1 = pause_reading_now s0 in
    let u = pause_reading-Unheard s0 in
    let p1 : IsConnection s1 = Unheard-IsConnection s0 s1 u (
      Phase-closing s.protocol_connected s.finalizing_close (is_some s.finalize_scheduled) s.closing
        (stages s.trace) p) in
    if-cases IsConnection s.closing s
      (if s1.write_backlog_size == 0 then schedule_finalize_close none s1 else s1) (λ _. p)
      (λ alive.
        if-cases IsConnection (s1.write_backlog_size == 0) (schedule_finalize_close none s1) s1
          (λ _. schedule-IsConnection none s1 u.3 (u.1 ∙ live s alive p) p1) (λ _. p1))
  where
    live : (t : Stream) → t.closing ≡ false → IsConnection t → t.finalizing_close ≡ false
    live t alive q =
        Phase-live t.protocol_connected t.finalizing_close (is_some t.finalize_scheduled) t.closing
          (stages t.trace) alive q

finalize-IsConnection : (s : Stream) → IsConnection s → IsConnection (finalize_close s)
unfolding finalize_close
finalize-IsConnection s p = called s.finalize_scheduled p
  where
    detached : (t : Stream) → IsConnection t → IsConnection (detach_server t)
    detached t q =
        if-cases IsConnection t.server (emit server_detach (record t { server = false })) t (λ _. q)
          (λ _. q)

    dropped :
        (exc : Option Exc) (b : Bool)
        → Phase b s.finalizing_close true s.closing (stages s.trace)
        → let t = record s { protocol_connected = b; finalize_scheduled = none } in
          IsConnection (emit close_file (lose_connection exc t))
    dropped exc true q = Phase-lost s.finalizing_close s.closing (stages s.trace) q
    dropped exc false q = Phase-closed s.finalizing_close s.closing (stages s.trace) q

    called :
        (o : Option (Option Exc))
        → Phase s.protocol_connected s.finalizing_close (is_some o) s.closing (stages s.trace)
        → IsConnection (elim o [
          | none ↦ s
          | some exc ↦
              detach_server
                (record (emit close_file
                  (lose_connection exc (record s { finalize_scheduled = none }))) {
                    protocol_dropped = true;
                  })
        ])
    called none q = p
    called (some exc) q =
        detached
          (record (emit close_file (lose_connection exc (record s { finalize_scheduled = none }))) {
            protocol_dropped = true;
          })
          (dropped exc s.protocol_connected q)

made-IsConnection : (s : Stream) → IsConnection s → IsConnection (call_connection_made s)
unfolding call_connection_made
made-IsConnection s p =
    if-cases IsConnection (s.protocol_connected || s.finalizing_close) s
      (emit connection_made (record s { protocol_connected = true })) (λ _. p)
      (λ e.
        Phase-made s.protocol_connected s.finalizing_close (is_some s.finalize_scheduled) s.closing
          (stages s.trace) e p)

quiet-IsConnection :
    (e : Event) → IsQuiet e → (s : Stream) → IsConnection s → IsConnection (emit e s)
quiet-IsConnection e q s p =
    Unheard-IsConnection s (emit e s) (refl, refl, refl, refl, quiet-stages e s.trace q) p

connection : Stable IsConnection
connection = record {
  on_kernel = λ k s p. p;
  on_backlog = λ q n s p. p;
  on_waiter = λ w s p. p;
  on_count = λ n s p. p;
  on_eof = λ s p. p;
  on_limits = λ low high s p. p;
  on_event = quiet-IsConnection;
  on_pause = λ s p. Unheard-IsConnection s (maybe_pause s) (pause-Unheard s) p;
  on_resume = λ s p. Unheard-IsConnection s (maybe_resume s) (resume-Unheard s) p;
  on_start = λ s p. Unheard-IsConnection s (start_backlog_writing s) (start-Unheard s) p;
  on_stop = λ s p. Unheard-IsConnection s (stop_backlog_writing s) (stop-Unheard s) p;
  on_force_close = force_close-IsConnection;
  on_close = close-IsConnection;
  on_schedule = λ s shut live p. schedule-IsConnection none s shut live p;
  on_finalize = finalize-IsConnection;
  on_made = made-IsConnection;
}

-- Over any history of calls on a new transport `connection_made` is called at most once, and the
-- file is closed at most once. If `connection_made` was called, then `connection_lost` is called
-- once, right before the file is closed, and otherwise never; none of the three comes after that.
-- A scheduled or finished end means that the transport is closing.
pub run-IsConnection :
    (ops : List Op) (socket server able : Bool) (script : List Answer)
    → IsConnection (run ops (init socket server able script))
run-IsConnection ops socket server able script =
    on_run connection ops (init socket server able script) (start socket server able script)
  where
    start : (b c d : Bool) (t : List Answer) → IsConnection (init b c d t)
    start b c d t = unfold init in refl
