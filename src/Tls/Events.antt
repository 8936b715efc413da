-- ===== src/Tls/Events.antt =====
-- The events of a TLS transport keep it sound (aiofastnet/ssl_transport.pyx).
use aiofastnet.Base.{
  ℕ, ◌+◌, ◌-◌, ◌≡◌, refl, Bool, false, List, [], ◌∷◌, ◌++◌, ◌==◌, ltb, length, take, if◌then◌else◌,
  if-cases, arith,
}
use aiofastnet.Stream.Kernel
use aiofastnet.Tls.{
  Phase, unwrapped, in_handshake, wrapped, flushing, in_shutdown, SslError, ssl, want_read,
  want_write, syscall, zero_return, Answer, progress, stops, system, Tls, Reply, ok, raised,
  and_then, done, drop_writer, flush_outgoing_bio,
}
use aiofastnet.Tls.Close.{guard, process_eof}
use aiofastnet.Tls.Loops.{answered, read_failure, flush_write_backlog, should_retry_read}
use aiofastnet.Tls.Reads.{
  start_shutdown, deliver, read_script, data_received_max_size, flush_after_read, do_read,
  incoming_bio_updated, Arrival, arrives, at_eof, blocked, breaks, is_spent, read_loop, read_ready,
  retry_ssl_read, write_phase, write_ready,
}
use aiofastnet.Tls.Calm.{
  IsSound, Calm, After, Calm-refl, Calm-IsSound, Calms-After, Calms-and_then, Calm-After,
  After-and_then, same-After, drop_writer-Calm, flush_outgoing_bio-Calms,
}
use aiofastnet.Tls.Written.{flush_write_backlog-After}
use aiofastnet.Tls.Closed.{process_eof-After, guard-Ends, Ends}
use aiofastnet.Tls.Kept.{
  after_answer, no_answer, fails_after, do_handshake-After, read_failure-legal,
  should_retry_read-After, do_flush-After, do_shutdown-After, start_shutdown-After,
}

deliver-Calm : (d : List ℕ) (s : Tls) → Calm s (deliver d s)
deliver-Calm [] s = Calm-refl s
deliver-Calm (x ∷ d) s = ((refl, refl, refl, refl, refl, λ h. h), refl)

delivered :
    {A : Type 0} (d : List ℕ) (s : Tls) (r : Tls × Reply A)
    → IsSound s
    → (IsSound (deliver d s) → After (deliver d s) r)
    → After s r
delivered d s r h f =
    let c : Calm s (deliver d s) = deliver-Calm d s in
    Calm-After s (deliver d s) r c (f (Calm-IsSound s (deliver d s) c h))

-- The loop goes on, or ends.
read_on :
    (script : List Answer) (full : List ℕ) (s : Tls)
    → IsSound s
    → ((d : List ℕ) (t : Tls) → IsSound t → After t (read_script script d t))
    → After s (
        if length full == data_received_max_size
        then if s.read_paused
          then done tt (deliver full s)
          else read_script script [] (deliver full s)
        else read_script script full s)
read_on script full s h ih =
    if-cases (After s) (length full == data_received_max_size)
      (if s.read_paused then done tt (deliver full s) else read_script script [] (deliver full s))
      (read_script script full s)
      (λ _.
        if-cases (After s) s.read_paused (deliver full s, ok tt)
          (read_script script [] (deliver full s))
          (λ _. Calms-After s (deliver full s, ok tt) h (deliver-Calm full s))
          (λ _.
            delivered full s (read_script script [] (deliver full s)) h
              (λ g. ih [] (deliver full s) g)))
      (λ _. ih full s h)

read_stop :
    (e : SslError) (script : List Answer) (d : List ℕ) (s : Tls)
    → IsSound s
    → ((d : List ℕ) (t : Tls) → IsSound t → After t (read_script script d t))
    → After s (
        if s.read_paused
        then done tt (deliver d s)
        else and_then
            (should_retry_read (λ t. start_shutdown t.phase t) e (deliver d s))
            (λ retry t. if retry then read_script script [] t else done tt t))
read_stop e script d s h ih =
    let next : Bool → Tls → Tls × Reply (Unit {0}) =
      λ retry t. if retry then read_script script [] t else done tt t in
    if-cases (After s) s.read_paused (deliver d s, ok tt)
      (and_then (should_retry_read (λ t. start_shutdown t.phase t) e (deliver d s)) next)
      (λ _. Calms-After s (deliver d s, ok tt) h (deliver-Calm d s))
      (λ _.
        delivered d s
          (and_then (should_retry_read (λ t. start_shutdown t.phase t) e (deliver d s)) next) h
          (λ g.
            After-and_then (deliver d s)
              (should_retry_read (λ t. start_shutdown t.phase t) e (deliver d s)) next
              (should_retry_read-After (λ t. start_shutdown t.phase t) e (deliver d s)
                (λ t k. start_shutdown-After t.phase t refl k) g)
              (λ retry t _ k.
                if-cases (After t) retry (read_script script [] t) (t, ok tt) (λ _. ih [] t k)
                  (λ _. same-After t k))))

read_script-After :
    (script : List Answer) (d : List ℕ) (s : Tls) → IsSound s → After s (read_script script d s)
unfolding read_script
read_script-After [] d s h =
    no_answer s (deliver d (record s { script = [] }), ok tt) h
      (λ g.
        Calms-After (record s { script = [] }) (deliver d (record s { script = [] }), ok tt) g
          (deliver-Calm d (record s { script = [] })))
read_script-After (progress n got c ∷ script) d s h =
    let t : Tls = answered script c s in
    after_answer script c s (read_script (progress n got c ∷ script) d s) h (λ k g.
      read_on script (d ++ take (data_received_max_size - length d) got) t g
        (λ f u m. read_script-After script f u m))
read_script-After (stops ssl c ∷ script) d s h =
    fails_after script c s (read_failure ssl) h (read_failure-legal ssl)
read_script-After (stops syscall c ∷ script) d s h =
    fails_after script c s (read_failure syscall) h (read_failure-legal syscall)
read_script-After (stops want_read c ∷ script) d s h =
    after_answer script c s (read_script (stops want_read c ∷ script) d s) h (λ k g.
      read_stop want_read script d (answered script c s) g
        (λ f u m. read_script-After script f u m))
read_script-After (stops want_write c ∷ script) d s h =
    after_answer script c s (read_script (stops want_write c ∷ script) d s) h (λ k g.
      read_stop want_write script d (answered script c s) g
        (λ f u m. read_script-After script f u m))
read_script-After (stops zero_return c ∷ script) d s h =
    after_answer script c s (read_script (stops zero_return c ∷ script) d s) h (λ k g.
      read_stop zero_return script d (answered script c s) g
        (λ f u m. read_script-After script f u m))

flush_after_read-After : (s : Tls) → IsSound s → After s (flush_after_read s)
unfolding flush_after_read
flush_after_read-After s h =
    Calms-and_then s (flush_outgoing_bio s)
      (λ _ t. if t.write_backlog_size == 0 then done tt t else flush_write_backlog t.phase t) h
      (flush_outgoing_bio-Calms s)
      (λ _ t _ g.
        if-cases (After t) (t.write_backlog_size == 0) (t, ok tt) (flush_write_backlog t.phase t)
          (λ _. same-After t g) (λ _. flush_write_backlog-After t.phase t g))

do_read-After : (s : Tls) → IsSound s → After s (do_read s)
unfolding do_read
do_read-After s h =
    let next : Unit {0} → Tls → Tls × Reply (Unit {0}) =
      λ _ t. if t.write_ready_registered then done tt t else flush_after_read t in
    if-cases (After s) s.read_paused (s, ok tt) (and_then (read_script s.script [] s) next)
      (λ _. same-After s h)
      (λ _.
        After-and_then s (read_script s.script [] s) next (read_script-After s.script [] s h)
          (λ _ t _ g.
            if-cases (After t) t.write_ready_registered (t, ok tt) (flush_after_read t)
              (λ _. same-After t g) (λ _. flush_after_read-After t g)))

pub incoming_bio_updated-After :
    (p : Phase) (s : Tls) → s.phase ≡ p → IsSound s → After s (incoming_bio_updated p s)
unfolding incoming_bio_updated
incoming_bio_updated-After in_handshake s e h = do_handshake-After s e h
incoming_bio_updated-After wrapped s e h = do_read-After s h
incoming_bio_updated-After flushing s e h = do_flush-After s e h
incoming_bio_updated-After in_shutdown s e h = do_shutdown-After s h
incoming_bio_updated-After unwrapped s e h = same-After s h

unless :
    (b : Bool) (s : Tls) (r : Tls × Reply (Unit {0}))
    → IsSound s
    → After s r
    → After s (if b then done tt s else r)
unless b s r h x = if-cases (After s) b (s, ok tt) r (λ _. same-After s h) (λ _. x)

read_loop-After :
    (arrivals : List Arrival) (total : ℕ) (s : Tls)
    → IsSound s
    → After s (read_loop arrivals total s)
unfolding read_loop
read_loop-After [] total s h = same-After s h
read_loop-After (at_eof ∷ arrivals) total s h =
    unless (is_spent total s) s (process_eof s.phase s) h (process_eof-After s.phase s refl h)
read_loop-After (blocked ∷ arrivals) total s h = same-After s h
read_loop-After (breaks e ∷ arrivals) total s h =
    unless (is_spent total s) s (s, raised (system (Kernel.os_error e))) h
      (Calms-After {A = Unit {0}} s (s, raised (system (Kernel.os_error e))) h
        (Calm-refl s, λ q. absurd (ground arith)))
read_loop-After (arrives n room ∷ arrivals) total s h =
    let next : Unit {0} → Tls → Tls × Reply (Unit {0}) =
      λ _ t. if ltb n room then done tt t else read_loop arrivals (total + n) t in
    unless (is_spent total s) s (and_then (incoming_bio_updated s.phase s) next) h (
      After-and_then s (incoming_bio_updated s.phase s) next
        (incoming_bio_updated-After s.phase s refl h)
        (λ _ t _ g.
          unless (ltb n room) t (read_loop arrivals (total + n) t) g
            (read_loop-After arrivals (total + n) t g)))

Ends-unless :
    (b : Bool) (s : Tls) (r : Tls × Reply (Unit {0}))
    → IsSound s
    → Ends s r
    → Ends s (if b then done tt s else r)
Ends-unless b s r h x = if-cases (Ends s) b (s, ok tt) r (λ _. same-After s h) (λ _. x)

pub read_ready-Ends :
    (arrivals : List Arrival) (s : Tls) → IsSound s → Ends s (read_ready arrivals s)
unfolding read_ready
read_ready-Ends arrivals s h =
    Ends-unless s.finalizing_close s (guard (read_loop arrivals 0 s)) h
      (guard-Ends s (read_loop arrivals 0 s) (read_loop-After arrivals 0 s h))

pub retry_ssl_read-Ends : (s : Tls) → IsSound s → Ends s (retry_ssl_read s)
unfolding retry_ssl_read
retry_ssl_read-Ends s h =
    Ends-unless s.finalizing_close s (guard (incoming_bio_updated s.phase s)) h
      (guard-Ends s (incoming_bio_updated s.phase s) (incoming_bio_updated-After s.phase s refl h))

write_phase-After : (p : Phase) (s : Tls) → s.phase ≡ p → IsSound s → After s (write_phase p s)
unfolding write_phase
write_phase-After in_handshake s e h = do_handshake-After s e h
write_phase-After wrapped s e h =
    if-cases (After s) (s.write_backlog_size == 0) (do_read s) (flush_write_backlog wrapped s)
      (λ _. do_read-After s h) (λ _. flush_write_backlog-After wrapped s h)
write_phase-After flushing s e h = do_flush-After s e h
write_phase-After in_shutdown s e h = do_shutdown-After s h
write_phase-After unwrapped s e h = same-After s h

pub write_ready-Ends : (s : Tls) → IsSound s → Ends s (write_ready s)
unfolding write_ready
write_ready-Ends s h = Ends-unless s.finalizing_close s (guard body) h (
    guard-Ends s body (
      Calm-After s t body ((refl, refl, refl, refl, refl, λ w. w), refl)
        (Calms-and_then t (flush_outgoing_bio t) phased h (flush_outgoing_bio-Calms t) (λ _ u _ g.
          After-and_then u (write_phase u.phase u) ended (write_phase-After u.phase u refl g)
            (λ _ v _ m.
              if-cases (λ w. After {A = Unit {0}} v (w, ok tt)) v.write_had_eagain v (drop_writer v)
                (λ _. same-After v m)
                (λ _. Calms-After v (drop_writer v, ok tt) m (drop_writer-Calm v)))))))
  where
    t : Tls
    t = record s { write_had_eagain = false }

    ended : Unit {0} → Tls → Tls × Reply (Unit {0})
    ended _ u = done tt (if u.write_had_eagain then u else drop_writer u)

    phased : Bool → Tls → Tls × Reply (Unit {0})
    phased _ u = and_then (write_phase u.phase u) ended

    body : Tls × Reply (Unit {0})
    body = and_then (flush_outgoing_bio t) phased
