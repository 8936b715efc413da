-- ===== src/Tls/Kept.antt =====
-- Every loop of a TLS transport keeps it sound (aiofastnet/ssl_transport.pyx).
use aiofastnet.Base.{
  ℕ, ◌≡◌, refl, ◌∙◌, Bool, true, false, not, none, List, [], ◌∷◌, ◌==◌, if◌then◌else◌, if-cases,
  arith,
}
use aiofastnet.Tls.{
  Phase, unwrapped, in_handshake, wrapped, flushing, in_shutdown, allowed, SslError, ssl, want_read,
  want_write, syscall, zero_return, Answer, progress, stops, Exc, runtime_error, ssl_failure,
  illegal_switch, eof_received, shutdown_timer, Tls, Reply, ok, raised, and_then, done, emit,
  set_state, flush_outgoing_bio,
}
use aiofastnet.Tls.Close.{handshake_made, on_shutdown_complete, abort}
use aiofastnet.Tls.Loops.{
  answered, handshake_script, do_handshake, read_failure, flush_write_backlog, call_eof_received,
  should_retry_read,
}
use aiofastnet.Tls.Reads.{
  void_script, do_read_into_void, shutdown_script, do_shutdown, local_write_buffer_size, end_flush,
  do_flush, start_flush, start_shutdown,
}
use aiofastnet.Tls.Calm.{
  IsSound, Calm, Calms, After, Breaks, Calm-refl, Calm-trans, Calm-IsSound, Calms-After,
  Calms-and_then, Calms-Calms, Calm-After, After-and_then, After-lands, same-After,
  flush_outgoing_bio-Calms,
}
use aiofastnet.Tls.Written.{answered-Calm, flush_write_backlog-After, flush_write_backlog-Lands}
use aiofastnet.Tls.Closed.{
  handshake_made-After, abort-Shuts, Shuts-After, Shut-After, on_shutdown_complete-Shut,
  IsSound-IsMendable, set_state-After, set_state-Lands,
}

then_flush-Calms :
    (s : Tls) → Calms s (and_then (flush_outgoing_bio s) (λ _ t. done {A = Unit {0}} tt t))
then_flush-Calms s =
    Calms-Calms s (flush_outgoing_bio s) (λ _ t. done {A = Unit {0}} tt t)
      (flush_outgoing_bio-Calms s) (λ _ t c. c)

then_flush-After :
    (s : Tls)
    → IsSound s
    → After s (and_then (flush_outgoing_bio s) (λ _ t. done {A = Unit {0}} tt t))
then_flush-After s h =
    Calms-After s (and_then (flush_outgoing_bio s) (λ _ t. done tt t)) h (then_flush-Calms s)

-- An answer, and what is done with it.
pub after_answer :
    {A : Type 0} (script : List Answer) (c : List ℕ) (s : Tls) (r : Tls × Reply A)
    → IsSound s
    → (Calm s (answered script c s) → IsSound (answered script c s) → After (answered script c s) r)
    → After s r
after_answer script c s r h f =
    let k : Calm s (answered script c s) = answered-Calm script c s in
    Calm-After s (answered script c s) r k (f k (Calm-IsSound s (answered script c s) k h))

pub no_answer :
    {A : Type 0} (s : Tls) (r : Tls × Reply A)
    → IsSound s
    → (IsSound (record s { script = [] }) → After (record s { script = [] }) r)
    → After s r
no_answer s r h f =
    Calm-After s (record s { script = [] }) r ((refl, refl, refl, refl, refl, λ w. w), refl) (f h)

pub fails_after :
    (script : List Answer) (c : List ℕ) (s : Tls) (e : Exc)
    → IsSound s
    → (e ≡ illegal_switch → ⊥)
    → Breaks s (answered script c s) e
fails_after script c s e h l =
    Calms-After {A = Unit {0}} s (answered script c s, raised e) h (answered-Calm script c s, l)

retries :
    (s : Tls) (k : Tls → Tls × Reply (Unit {0}))
    → IsSound s
    → ((t : Tls) → Calm s t → IsSound t → After t (k t))
    → After s (and_then (flush_outgoing_bio s) (λ retry t. if retry then k t else done tt t))
retries s k h f =
    Calms-and_then s (flush_outgoing_bio s) (λ retry t. if retry then k t else done tt t) h
      (flush_outgoing_bio-Calms s)
      (λ retry t c g.
        if-cases (After t) retry (k t) (t, ok tt) (λ _. f t c g) (λ _. same-After t g))

handshake_script-After :
    (script : List Answer) (s : Tls)
    → s.phase ≡ in_handshake
    → IsSound s
    → After s (handshake_script script s)
unfolding handshake_script
handshake_script-After [] s e h =
    no_answer s (and_then (flush_outgoing_bio (record s { script = [] })) (λ _ t. done tt t)) h
      (λ g. then_flush-After (record s { script = [] }) g)
handshake_script-After (progress _ _ c ∷ script) s e h =
    let t : Tls = answered script c s in
    after_answer script c s
      (and_then (handshake_made t) (λ _ u. and_then (flush_outgoing_bio u) (λ _ v. done tt v))) h
      (λ k g.
        After-and_then t (handshake_made t)
          (λ _ u. and_then (flush_outgoing_bio u) (λ _ v. done tt v)) (handshake_made-After t e g)
          (λ _ u _ m. then_flush-After u m))
handshake_script-After (stops want_read c ∷ script) s e h =
    after_answer script c s (and_then (flush_outgoing_bio (answered script c s)) (λ _ t. done tt t))
      h (λ k g. then_flush-After (answered script c s) g)
handshake_script-After (stops want_write c ∷ script) s e h =
    after_answer script c s
      (and_then (flush_outgoing_bio (answered script c s))
        (λ retry t. if retry then handshake_script script t else done tt t))
      h
      (λ k g.
        retries (answered script c s) (handshake_script script) g
          (λ t m n. handshake_script-After script t (m.0.0 ∙ e) n))
handshake_script-After (stops ssl c ∷ script) s e h =
    fails_after script c s ssl_failure h (λ q. absurd (ground arith))
handshake_script-After (stops syscall c ∷ script) s e h =
    fails_after script c s ssl_failure h (λ q. absurd (ground arith))
handshake_script-After (stops zero_return c ∷ script) s e h =
    fails_after script c s ssl_failure h (λ q. absurd (ground arith))

pub do_handshake-After : (s : Tls) → s.phase ≡ in_handshake → IsSound s → After s (do_handshake s)
unfolding do_handshake
do_handshake-After s e h = handshake_script-After s.script s e h

call_eof_received-Calm : (s : Tls) → Calm s (call_eof_received s)
unfolding call_eof_received
call_eof_received-Calm s =
    if-cases (Calm s) (not s.protocol_connected) s
      (if s.protocol_eof_received
        then s
        else emit eof_received (record s { protocol_eof_received = true }))
      (λ _. Calm-refl s)
      (λ _.
        if-cases (Calm s) s.protocol_eof_received s
          (emit eof_received (record s { protocol_eof_received = true })) (λ _. Calm-refl s)
          (λ _. ((refl, refl, refl, refl, refl, λ h. h), refl)))

pub read_failure-legal : (e : SslError) → read_failure e ≡ illegal_switch → ⊥
unfolding read_failure
read_failure-legal ssl q = absurd (ground arith)
read_failure-legal want_read q = absurd (ground arith)
read_failure-legal want_write q = absurd (ground arith)
read_failure-legal syscall q = absurd (ground arith)
read_failure-legal zero_return q = absurd (ground arith)

pub should_retry_read-After :
    (leave : Tls → Tls × Reply (Unit {0})) (e : SslError) (s : Tls)
    → ((t : Tls) → IsSound t → After t (leave t))
    → IsSound s
    → After s (should_retry_read leave e s)
unfolding should_retry_read
should_retry_read-After leave want_read s l h = Calms-After s (s, ok false) h (Calm-refl s)
should_retry_read-After leave want_write s l h =
    Calms-After s (flush_outgoing_bio s) h (flush_outgoing_bio-Calms s)
should_retry_read-After leave zero_return s l h =
    let t : Tls = call_eof_received s in
    let c : Calm s t = call_eof_received-Calm s in
    Calm-After s t (and_then (leave t) (λ _ u. done false u)) c (
      After-and_then t (leave t) (λ _ u. done false u) (l t (Calm-IsSound s t c h))
        (λ _ u _ g. Calms-After u (u, ok false) g (Calm-refl u)))
should_retry_read-After leave ssl s l h =
    Calms-After {A = Bool} s (s, raised (read_failure ssl)) h (Calm-refl s, read_failure-legal ssl)
should_retry_read-After leave syscall s l h =
    Calms-After {A = Bool} s (s, raised (read_failure syscall)) h
      (Calm-refl s, read_failure-legal syscall)

void-Calms : (e : SslError) (s : Tls) → Calms s (should_retry_read (done tt) e s)
unfolding should_retry_read
void-Calms want_read s = Calm-refl s
void-Calms want_write s = flush_outgoing_bio-Calms s
void-Calms zero_return s = call_eof_received-Calm s
void-Calms ssl s = (Calm-refl s, read_failure-legal ssl)
void-Calms syscall s = (Calm-refl s, read_failure-legal syscall)

Calm-Calms : {A : Type 0} (s t : Tls) (r : Tls × Reply A) → Calm s t → Calms t r → Calms s r
Calm-Calms s t (u, ok a) c d = Calm-trans s t u c d
Calm-Calms s t (u, raised e) c d = (Calm-trans s t u c d.0, d.1)

void_script-Calms : (script : List Answer) (s : Tls) → Calms s (void_script script s)
unfolding void_script
void_script-Calms [] s = ((refl, refl, refl, refl, refl, λ h. h), refl)
void_script-Calms (progress _ _ c ∷ script) s =
    Calm-Calms s (answered script c s) (void_script script (answered script c s))
      (answered-Calm script c s) (void_script-Calms script (answered script c s))
void_script-Calms (stops e c ∷ script) s =
    let t : Tls = answered script c s in
    Calm-Calms s t
      (and_then (should_retry_read (done tt) e t)
        (λ retry u. if retry then void_script script u else done tt u))
      (answered-Calm script c s)
      (Calms-Calms t (should_retry_read (done tt) e t)
        (λ retry u. if retry then void_script script u else done tt u) (void-Calms e t)
        (λ retry u k.
          if-cases (Calms t) retry (void_script script u) (u, ok tt)
            (λ _. Calm-Calms t u (void_script script u) k (void_script-Calms script u)) (λ _. k)))

do_read_into_void-Calms : (s : Tls) → Calms s (do_read_into_void s)
unfolding do_read_into_void
do_read_into_void-Calms s = void_script-Calms s.script s

shutdown_script-After :
    (script : List Answer) (s : Tls) → IsSound s → After s (shutdown_script script s)
unfolding shutdown_script
shutdown_script-After [] s h =
    no_answer s (and_then (flush_outgoing_bio (record s { script = [] })) (λ _ t. done tt t)) h
      (λ g. then_flush-After (record s { script = [] }) g)
shutdown_script-After (progress _ _ c ∷ script) s h =
    let t : Tls = answered script c s in
    after_answer script c s
      (and_then (flush_outgoing_bio t) (λ _ u. done tt (on_shutdown_complete none u))) h
      (λ k g.
        Calms-and_then t (flush_outgoing_bio t) (λ _ u. done tt (on_shutdown_complete none u)) g
          (flush_outgoing_bio-Calms t)
          (λ _ u _ m.
            Shut-After u (on_shutdown_complete none u)
              (on_shutdown_complete-Shut none u (IsSound-IsMendable u m))))
shutdown_script-After (stops want_read c ∷ script) s h =
    after_answer script c s (and_then (flush_outgoing_bio (answered script c s)) (λ _ t. done tt t))
      h (λ k g. then_flush-After (answered script c s) g)
shutdown_script-After (stops want_write c ∷ script) s h =
    after_answer script c s
      (and_then (flush_outgoing_bio (answered script c s))
        (λ retry t. if retry then shutdown_script script t else done tt t))
      h
      (λ k g.
        retries (answered script c s) (shutdown_script script) g
          (λ t _ n. shutdown_script-After script t n))
shutdown_script-After (stops ssl c ∷ script) s h =
    fails_after script c s ssl_failure h (λ q. absurd (ground arith))
shutdown_script-After (stops syscall c ∷ script) s h =
    fails_after script c s ssl_failure h (λ q. absurd (ground arith))
shutdown_script-After (stops zero_return c ∷ script) s h =
    fails_after script c s ssl_failure h (λ q. absurd (ground arith))

pub do_shutdown-After : (s : Tls) → IsSound s → After s (do_shutdown s)
unfolding do_shutdown
do_shutdown-After s h =
    Calms-and_then s (do_read_into_void s) (λ _ t. shutdown_script t.script t) h
      (do_read_into_void-Calms s) (λ _ t _ g. shutdown_script-After t.script t g)

end_flush-After : (s : Tls) → s.phase ≡ flushing → IsSound s → After s (end_flush s)
unfolding end_flush allowed
end_flush-After s e h =
    if-cases (After s) (local_write_buffer_size s == 0)
      (and_then (set_state in_shutdown s) (λ _ t. do_shutdown t)) (s, ok tt)
      (λ _.
        After-and_then s (set_state in_shutdown s) (λ _ t. do_shutdown t)
          (set_state-After flushing in_shutdown s e refl (omega arith) h)
          (λ _ t _ g. do_shutdown-After t g))
      (λ _. same-After s h)

pub do_flush-After : (s : Tls) → s.phase ≡ flushing → IsSound s → After s (do_flush s)
unfolding do_flush
do_flush-After s e h =
    Calms-and_then s (do_read_into_void s)
      (λ _ t. and_then (flush_write_backlog t.phase t) (λ _ u. end_flush u)) h
      (do_read_into_void-Calms s)
      (λ _ t c g.
        After-lands flushing t (flush_write_backlog t.phase t) (λ _ u. end_flush u)
          (flush_write_backlog-After t.phase t g)
          (flush_write_backlog-Lands t.phase flushing t g (c.0.0 ∙ e))
          (λ _ u l m. end_flush-After u l m))

start_flush-After : (s : Tls) → s.phase ≡ flushing → IsSound s → After s (start_flush s)
unfolding start_flush
start_flush-After s e h =
    let t : Tls = emit shutdown_timer (record s { shutdown_timeout_handle = true }) in
    if-cases (After s) s.sock (do_flush t) (s, raised runtime_error)
      (λ _.
        Calm-After s t (do_flush t) ((refl, refl, refl, refl, refl, λ w. w), refl)
          (do_flush-After t e h))
      (λ _.
        Calms-After {A = Unit {0}} s (s, raised runtime_error) h
          (Calm-refl s, λ q. absurd (ground arith)))

pub start_shutdown-After :
    (p : Phase) (s : Tls) → s.phase ≡ p → IsSound s → After s (start_shutdown p s)
unfolding start_shutdown allowed
start_shutdown-After in_handshake s e h =
    Shuts-After s (abort in_handshake none s)
      (abort-Shuts in_handshake none s (IsSound-IsMendable s h))
start_shutdown-After wrapped s e h =
    After-lands flushing s (set_state flushing s) (λ _ t. start_flush t)
      (set_state-After wrapped flushing s e refl (omega arith) h) (set_state-Lands flushing s)
      (λ _ t l g. start_flush-After t l g)
start_shutdown-After flushing s e h = same-After s h
start_shutdown-After in_shutdown s e h = same-After s h
start_shutdown-After unwrapped s e h = same-After s h
