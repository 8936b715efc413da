-- ===== src/Tls/History.antt =====
-- Every history of a TLS transport (aiofastnet/ssl_transport.pyx).
use aiofastnet.Base.{
  ℕ, ◌+◌, ◌≡◌, refl, ap, ◌∙◌, Bool, true, false, ◌||◌, Option, none, some, List, [], ◌∷◌,
  if◌then◌else◌, if-cases, leb, not, is_some, arith,
}
use aiofastnet.Stream.Kernel.{flatten}
use aiofastnet.Stream.Watermarks.{Watermarks, high_limit, low_limit, set_limits}
use aiofastnet.Tls.{
  raised, value_error, not_implemented, maybe_pause, maybe_resume, Phase, unwrapped, in_handshake,
  wrapped, flushing, in_shutdown, timeout_error, connection_aborted, add_reader, remove_reader,
  connection_lost, close_socket, server_detach, Exc, log_warning, Tls, Reply, ok, done, emit,
  count_closed, is_closing, is_over, is_protocol_ready,
}
use aiofastnet.Tls.Close.{
  guard, abort, handshake_failed, lose_connection, close_sock, detach_server, finalize_close,
  finalize,
}
use aiofastnet.Tls.Reads.{start_shutdown}
use aiofastnet.Tls.Run.{
  write_body, write_nocheck, lines_body, writelines_nocheck, schedule_read, pause_reading,
  resume_reading, check_handshake_timeout, check_shutdown_timeout, set_write_buffer_limits,
  set_limits_call, write_eof, write_eof_call, sendfile, sendfile_call, exceptions, Op, write_call,
  writelines_call, close_call, abort_call, pause_reading_call, resume_reading_call,
  read_ready_event, write_ready_event, retry_read_event, handshake_timeout, shutdown_timeout,
  finalize_event, step,
}
use aiofastnet.Tls.Calm.{
  rank, IsSound, same-After, Calm, After, Calm-refl, Calm-trans, Calm-IsSound, Calms-After,
  maybe_pause-Calm, maybe_resume-Calm,
}
use aiofastnet.Tls.Closed.{
  Ends, guard-Ends, Shut, Shut-After, Shuts-Ends, abort-Shuts, handshake_failed-Shuts,
  IsSound-IsMendable,
}
use aiofastnet.Tls.Kept.{start_shutdown-After}
use aiofastnet.Tls.Events.{read_ready-Ends, retry_ssl_read-Ends, write_ready-Ends}
use aiofastnet.Tls.Calls.{offered, Puts-After}
use aiofastnet.Tls.Bodies.{write_body-Puts, lines_body-Puts}

count_closed-Calm : (s : Tls) → Calm s (count_closed s)
unfolding count_closed
count_closed-Calm s =
    if-cases (Calm s) (leb 5 s.closed_write_count)
      (emit log_warning (record s { closed_write_count = s.closed_write_count + 1 }))
      (record s { closed_write_count = s.closed_write_count + 1 })
      (λ _. ((refl, refl, refl, refl, refl, λ h. h), refl))
      (λ _. ((refl, refl, refl, refl, refl, λ h. h), refl))

-- Data that a closed transport is given do not count.
abbrev pub taking : List ℕ → Tls → Tls
taking d s = if is_closing s then s else offered d s

ready-Ends :
    (d : List ℕ) (s : Tls) (body : Tls → Tls × Reply (Unit {0}))
    → IsSound s
    → (s.finalizing_close ≡ false → After (offered d s) (body s))
    → let r : Tls × Bool = is_protocol_ready s in
      Ends (taking d s) (if r.1 then guard (body r.0) else done tt r.0)
unfolding is_protocol_ready is_closing
ready-Ends d s body h f = pick (s.finalizing_close || is_over s.phase) (λ e. ground arith)
  where
    pick :
        (b : Bool)
        → (b ≡ false → s.finalizing_close ≡ false)
        → let r : Tls × Bool = if b then (count_closed s, false) else (s, true) in
          Ends (if b then s else offered d s) (if r.1 then guard (body r.0) else done tt r.0)
    pick true e = Calms-After s (count_closed s, ok tt) h (count_closed-Calm s)
    pick false e = guard-Ends (offered d s) (body s) (f (e refl))

write_nocheck-Ends : (d : List ℕ) (s : Tls) → IsSound s → Ends (taking d s) (write_nocheck d s)
unfolding write_nocheck
write_nocheck-Ends d s h =
    ready-Ends d s (write_body d) h
      (λ f. Puts-After d s (write_body d s) f (write_body-Puts d s f h))

writelines_nocheck-Ends :
    (ds : List (List ℕ)) (s : Tls)
    → IsSound s
    → Ends (taking (flatten ds) s) (writelines_nocheck ds s)
unfolding writelines_nocheck
writelines_nocheck-Ends ds s h =
    ready-Ends (flatten ds) s (lines_body ds) h
      (λ f. Puts-After (flatten ds) s (lines_body ds s) f (lines_body-Puts ds s f h))

pause_reading-Calm : (s : Tls) → Calm s (pause_reading s)
unfolding pause_reading
pause_reading-Calm s =
    if-cases (Calm s) (is_closing s || s.read_paused) s
      (emit remove_reader (record s { read_paused = true })) (λ _. Calm-refl s)
      (λ _. ((refl, refl, refl, refl, refl, λ h. h), refl))

schedule_read-Calm : (p : Phase) (s : Tls) → Calm s (schedule_read p s)
unfolding schedule_read
schedule_read-Calm wrapped s = ((refl, refl, refl, refl, refl, λ h. h), refl)
schedule_read-Calm flushing s = ((refl, refl, refl, refl, refl, λ h. h), refl)
schedule_read-Calm in_shutdown s = ((refl, refl, refl, refl, refl, λ h. h), refl)
schedule_read-Calm in_handshake s = Calm-refl s
schedule_read-Calm unwrapped s = Calm-refl s

resume_reading-Calm : (s : Tls) → Calm s (resume_reading s)
unfolding resume_reading
resume_reading-Calm s =
    let t : Tls = emit add_reader (record s { read_paused = false }) in
    if-cases (Calm s) (is_closing s || not s.read_paused) s (schedule_read s.phase t)
      (λ _. Calm-refl s)
      (λ _.
        Calm-trans s t (schedule_read s.phase t) ((refl, refl, refl, refl, refl, λ h. h), refl)
          (schedule_read-Calm s.phase t))

check_handshake_timeout-Ends :
    (p : Phase) (s : Tls) → IsSound s → Ends s (check_handshake_timeout p s)
unfolding check_handshake_timeout
check_handshake_timeout-Ends in_handshake s h =
    Shuts-Ends s (handshake_failed connection_aborted s)
      (handshake_failed-Shuts connection_aborted s (IsSound-IsMendable s h))
check_handshake_timeout-Ends wrapped s h = same-After s h
check_handshake_timeout-Ends flushing s h = same-After s h
check_handshake_timeout-Ends in_shutdown s h = same-After s h
check_handshake_timeout-Ends unwrapped s h = same-After s h

check_shutdown_timeout-Ends :
    (p : Phase) (s : Tls) → IsSound s → Ends s (check_shutdown_timeout p s)
unfolding check_shutdown_timeout
check_shutdown_timeout-Ends flushing s h =
    Shuts-Ends s (abort flushing (some timeout_error) s)
      (abort-Shuts flushing (some timeout_error) s (IsSound-IsMendable s h))
check_shutdown_timeout-Ends in_shutdown s h =
    Shuts-Ends s (abort in_shutdown (some timeout_error) s)
      (abort-Shuts in_shutdown (some timeout_error) s (IsSound-IsMendable s h))
check_shutdown_timeout-Ends wrapped s h = same-After s h
check_shutdown_timeout-Ends in_handshake s h = same-After s h
check_shutdown_timeout-Ends unwrapped s h = same-After s h

lose_connection-Calm : (exc : Option Exc) (s : Tls) → Calm s (lose_connection exc s)
unfolding lose_connection
lose_connection-Calm exc s =
    if-cases (Calm s) s.protocol_connected
      (emit (connection_lost exc) (record s { protocol_connected = false })) s
      (λ _. ((refl, refl, refl, refl, refl, λ h. h), refl)) (λ _. Calm-refl s)

detach_server-Calm : (s : Tls) → Calm s (detach_server s)
unfolding detach_server
detach_server-Calm s =
    if-cases (Calm s) s.server (emit server_detach (record s { server = false })) s
      (λ _. ((refl, refl, refl, refl, refl, λ h. h), refl)) (λ _. Calm-refl s)

close_sock-Shut : (s : Tls) → IsSound s → s.finalizing_close ≡ true → Shut s (close_sock s)
unfolding close_sock
close_sock-Shut s h f =
    if-cases (Shut s) s.sock (emit close_socket (record s { sock = false })) s
      (λ _. (omega arith, f, (h.0.0, h.0.1, (λ _. f), h.0.3), h.2 f, refl))
      (λ _. (omega arith, f, h.0, h.2 f, refl))

finalize-Ends :
    (exc : Option (Option Exc)) (s : Tls)
    → s.finalize_scheduled ≡ exc
    → IsSound s
    → Ends s (finalize exc s, ok tt)
unfolding finalize finalize_close
finalize-Ends none s e h = same-After s h
finalize-Ends (some exc) s e h =
    let f : s.finalizing_close ≡ true = h.0.3 (ap is_some e) in
    let t : Tls = record s { finalize_scheduled = none } in
    let u : Tls = lose_connection exc t in
    let v : Tls = close_sock u in
    let i : IsSound t = ((h.0.0, h.0.1, h.0.2, λ _. f), h.1, h.2) in
    let c : Calm t u = lose_connection-Calm exc t in
    let k : Shut u v = close_sock-Shut u (Calm-IsSound t u c i) (c.0.1 ∙ f) in
    let x : Tls = record v { protocol_dropped = true } in
    let d : Calm x (detach_server x) = detach_server-Calm x in
    Shut-After s (detach_server x) (
      omega (arith, k.0, ap rank c.0.0, ap rank d.0.0),
      d.0.1 ∙ k.1,
      d.0.5 k.2,
      d.0.4 ∙ k.3,
      d.1 ∙ k.4 ∙ c.1,
    )

-- The state with what a call adds to the data.
abbrev pub given : Op → Tls → Tls
given (write_call d) s = taking d s
given (writelines_call ds) s = taking (flatten ds) s
given _ s = s

-- What a call raises to its client: a limit that is refused, and what TLS cannot do.
abbrev pub refusal : Op → List Exc
refusal (set_limits_call high low) =
    if leb (low_limit (high_limit high low) low) (high_limit high low) then [] else value_error ∷ []
refusal write_eof_call = not_implemented ∷ []
refusal sendfile_call = not_implemented ∷ []
refusal _ = []

-- A step raises only what it refuses, and then it ends as a step does.
abbrev pub Steps : List Exc → Tls → Tls × Reply (Unit {0}) → Type 0
Steps es s r = (exceptions r.1 ≡ es) × Ends s (r.0, ok tt)

Ends-Steps : (s : Tls) (r : Tls × Reply (Unit {0})) → Ends s r → Steps [] s r
Ends-Steps s (t, ok u) x = (refl, x)
Ends-Steps s (t, raised e) x = absurd x

set_limits-Steps :
    (high low : Option ℕ) (s : Tls)
    → IsSound s
    → Steps (refusal (set_limits_call high low)) s (set_write_buffer_limits high low s)
unfolding set_write_buffer_limits set_limits
set_limits-Steps high low s h =
    pick (leb (low_limit (high_limit high low) low) (high_limit high low)) (record s.watermarks {
      low_water = low_limit (high_limit high low) low;
      high_water = high_limit high low;
    })
  where
    limited : (w : Watermarks) → Calm s (maybe_resume (maybe_pause (record s { watermarks = w })))
    limited w =
        let t : Tls = record s { watermarks = w } in
        Calm-trans s t (maybe_resume (maybe_pause t)) ((refl, refl, refl, refl, refl, λ i. i), refl)
          (Calm-trans t (maybe_pause t) (maybe_resume (maybe_pause t)) (maybe_pause-Calm t)
            (maybe_resume-Calm (maybe_pause t)))

    pick :
        (b : Bool) (w : Watermarks)
        → Steps
            (if b then [] else value_error ∷ [])
            s
            (elim (if b then some w else none) as (λ _. Tls × Reply (Unit {0})) [
              | none ↦ (s, raised value_error)
              | some v ↦ done tt (maybe_resume (maybe_pause (record s { watermarks = v })))
            ])
    pick true w = (
      refl,
      Calms-After s (maybe_resume (maybe_pause (record s { watermarks = w })), ok tt) h (limited w),
    )
    pick false w = (refl, same-After s h)

pub step-Steps : (o : Op) (s : Tls) → IsSound s → Steps (refusal o) (given o s) (step o s)
unfolding step write_eof sendfile
step-Steps (write_call d) s h =
    Ends-Steps (given (write_call d) s) (step (write_call d) s) (write_nocheck-Ends d s h)
step-Steps (writelines_call ds) s h =
    Ends-Steps (given (writelines_call ds) s) (step (writelines_call ds) s)
      (writelines_nocheck-Ends ds s h)
step-Steps (set_limits_call high low) s h = set_limits-Steps high low s h
step-Steps write_eof_call s h = (refl, same-After s h)
step-Steps sendfile_call s h = (refl, same-After s h)
step-Steps close_call s h =
    Ends-Steps (given close_call s) (step close_call s)
      (guard-Ends s (start_shutdown s.phase s) (start_shutdown-After s.phase s refl h))
step-Steps abort_call s h =
    Ends-Steps (given abort_call s) (step abort_call s)
      (Shuts-Ends s (abort s.phase none s) (abort-Shuts s.phase none s (IsSound-IsMendable s h)))
step-Steps pause_reading_call s h =
    Ends-Steps (given pause_reading_call s) (step pause_reading_call s)
      (Calms-After s (pause_reading s, ok tt) h (pause_reading-Calm s))
step-Steps resume_reading_call s h =
    Ends-Steps (given resume_reading_call s) (step resume_reading_call s)
      (Calms-After s (resume_reading s, ok tt) h (resume_reading-Calm s))
step-Steps (read_ready_event arrivals) s h =
    Ends-Steps (given (read_ready_event arrivals) s) (step (read_ready_event arrivals) s)
      (read_ready-Ends arrivals s h)
step-Steps write_ready_event s h =
    Ends-Steps (given write_ready_event s) (step write_ready_event s) (write_ready-Ends s h)
step-Steps retry_read_event s h =
    Ends-Steps (given retry_read_event s) (step retry_read_event s) (retry_ssl_read-Ends s h)
step-Steps handshake_timeout s h =
    Ends-Steps (given handshake_timeout s) (step handshake_timeout s)
      (check_handshake_timeout-Ends s.phase s h)
step-Steps shutdown_timeout s h =
    Ends-Steps (given shutdown_timeout s) (step shutdown_timeout s)
      (check_shutdown_timeout-Ends s.phase s h)
step-Steps finalize_event s h =
    Ends-Steps (given finalize_event s) (step finalize_event s)
      (finalize-Ends s.finalize_scheduled s refl h)
