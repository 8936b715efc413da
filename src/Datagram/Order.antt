-- ===== src/Datagram/Order.antt =====
-- Datagrams go to the system whole and in order (aiofastnet/transport.pyx,
-- aiofastnet/selector_transport.pyx).
use aiofastnet.Base.{
  ℕ, ◌+◌, ◌-◌, ◌≡◌, refl, sym, ap, ◌∙◌, Bool, true, false, not, ◌&&◌, ◌||◌, Option, none, some,
  is_some, List, [], ◌∷◌, All, ◌++◌, append-nil, append_assoc, ◌==◌, leb, if◌then◌else◌, if-cases,
  Bool-cases, inl, inr, arith,
}
use aiofastnet.Stream.Watermarks.{Watermarks, Call, maybe_pause_protocol, maybe_resume_protocol}
use aiofastnet.Buffer.{Buffer, items, maybe_copy}
use aiofastnet.Datagram.{
  header_size, kept, Datagram, Answer, Attempt, Exc, bad_address, log_warning, add_writer,
  remove_writer, remove_reader, Sender, emit, emit_call, weight, maybe_pause, maybe_resume,
  start_backlog_writing, stop_backlog_writing, pause_reading_now, schedule_finalize_close,
  close_now, close, start_closing, clear_write_backlog, force_close, Sent, sent, again, failed,
  send_script, tried, try_sendto, queue, try_or_queue, send_now, count_closed, send_or_drop,
  settle_address, is_sendable, send_to, sendto_nocheck, drain, end_drain, after_drain, write_ready,
  Op, sendto_call, write_ready_event, close_call, abort_call, step, run,
}

-- The datagrams that the system was asked to send and did not put off.
abbrev pub datagrams : List Attempt → List Datagram
datagrams [] = []
datagrams (a ∷ attempts) = a.datagram ∷ datagrams attempts

datagrams-append : (a b : List Attempt) → datagrams (a ++ b) ≡ datagrams a ++ datagrams b
datagrams-append [] b = refl
datagrams-append (x ∷ a) b = ap (λ t. x.datagram ∷ t) (datagrams-append a b)

abbrev pub content : Sender → List Datagram
content s = datagrams s.attempts ++ s.write_backlog

abbrev pub weigh : List Datagram → ℕ
weigh [] = 0
weigh (d ∷ ds) = weight d + weigh ds

weigh-append : (a b : List Datagram) → weigh (a ++ b) ≡ weigh a + weigh b
weigh-append [] b = omega arith
weigh-append (d ∷ a) b = omega (arith, weigh-append a b)

abbrev pub IsWeighed : Sender → Type 0
IsWeighed s = s.write_backlog_size ≡ weigh s.write_backlog

-- The datagrams join the others, unless the close has become final.
abbrev pub Takes : List Datagram → Sender → Sender → Type 0
Takes ds s t =
    (t.finalizing_close ≡ false → content t ≡ content s ++ ds)
    × (IsWeighed s → IsWeighed t)
    × (s.finalizing_close ≡ true → t.finalizing_close ≡ true)

-- The part touches neither the datagrams nor the close.
abbrev Calm : Sender → Sender → Type 0
Calm s t =
    (content t ≡ content s)
    × (IsWeighed s → IsWeighed t)
    × (t.finalizing_close ≡ s.finalizing_close)

Calm-refl : (s : Sender) → Calm s s
Calm-refl s = (refl, (λ h. h), refl)

Calm-trans : (s t u : Sender) → Calm s t → Calm t u → Calm s u
Calm-trans s t u c d = (d.0 ∙ c.0, (λ h. d.1 (c.1 h)), d.2 ∙ c.2)

Calm-Takes : (s t : Sender) → Calm s t → Takes [] s t
Calm-Takes s t c = ((λ _. c.0 ∙ sym (append-nil (content s))), c.1, λ f. c.2 ∙ f)

Takes-Calm : (ds : List Datagram) (s t u : Sender) → Takes ds s t → Calm t u → Takes ds s u
Takes-Calm ds s t u k c = ((λ f. c.0 ∙ k.0 (sym c.2 ∙ f)), (λ h. c.1 (k.1 h)), λ f. c.2 ∙ k.2 f)

Calm-then : (ds : List Datagram) (s t u : Sender) → Calm s t → Takes ds t u → Takes ds s u
Calm-then ds s t u c k =
    ((λ f. k.0 f ∙ ap (λ x. x ++ ds) c.0), (λ h. k.1 (c.1 h)), λ f. k.2 (c.2 ∙ f))

Takes-trans :
    (a b : List Datagram) (s t u : Sender) → Takes a s t → Takes b t u → Takes (a ++ b) s u
Takes-trans a b s t u k l = (
  (λ f. l.0 f ∙ ap (λ x. x ++ b) (k.0 (stays_open f)) ∙ append_assoc (content s) a b),
  (λ h. l.1 (k.1 h)),
  λ f. l.2 (k.2 f),
)
  where
    stays_open : u.finalizing_close ≡ false → t.finalizing_close ≡ false
    stays_open f = elim (Bool-cases t.finalizing_close) [
      | inl e ↦ absurd (ground (arith, l.2 e))
      | inr e ↦ e
    ]

-- A close that is final promises nothing of the datagrams.
final-Takes :
    (ds : List Datagram) (s t : Sender)
    → t.finalizing_close ≡ true
    → (IsWeighed s → IsWeighed t)
    → Takes ds s t
final-Takes ds s t e h = ((λ f. absurd (ground arith)), h, λ _. e)

emit_call-Calm : (c : Option Call) (s : Sender) → Calm s (emit_call c s)
emit_call-Calm none s = Calm-refl s
emit_call-Calm (some c) s = (refl, (λ h. h), refl)

maybe_pause-Calm : (s : Sender) → Calm s (maybe_pause s)
unfolding maybe_pause
maybe_pause-Calm s =
    let w : Watermarks × Option Call = maybe_pause_protocol s.watermarks s.write_backlog_size in
    let t : Sender = record s { watermarks = w.0 } in
    Calm-trans s t (emit_call w.1 t) (refl, (λ h. h), refl) (emit_call-Calm w.1 t)

maybe_resume-Calm : (s : Sender) → Calm s (maybe_resume s)
unfolding maybe_resume
maybe_resume-Calm s =
    let w : Watermarks × Option Call = maybe_resume_protocol s.watermarks s.write_backlog_size in
    let t : Sender = record s { watermarks = w.0 } in
    Calm-trans s t (emit_call w.1 t) (refl, (λ h. h), refl) (emit_call-Calm w.1 t)

start_backlog_writing-Calm : (s : Sender) → Calm s (start_backlog_writing s)
unfolding start_backlog_writing
start_backlog_writing-Calm s =
    if-cases (Calm s) (s.finalizing_close || s.write_ready_registered) s
      (emit add_writer (record s { write_ready_registered = true })) (λ _. Calm-refl s)
      (λ _. (refl, (λ h. h), refl))

stop_backlog_writing-Calm : (s : Sender) → Calm s (stop_backlog_writing s)
unfolding stop_backlog_writing
stop_backlog_writing-Calm s =
    if-cases (Calm s) s.write_ready_registered
      (emit remove_writer (record s { write_ready_registered = false })) s
      (λ _. (refl, (λ h. h), refl)) (λ _. Calm-refl s)

pause_reading_now-Calm : (s : Sender) → Calm s (pause_reading_now s)
unfolding pause_reading_now
pause_reading_now-Calm s =
    if-cases (Calm s) s.read_paused s (emit remove_reader (record s { read_paused = true }))
      (λ _. Calm-refl s) (λ _. (refl, (λ h. h), refl))

finalize-Takes : (s : Sender) → Takes [] s (schedule_finalize_close s)
unfolding schedule_finalize_close
finalize-Takes s = final-Takes [] s (schedule_finalize_close s) refl (λ h. h)

close-Takes : (s : Sender) → Takes [] s (close s)
unfolding close close_now
close-Takes s =
    let t : Sender = pause_reading_now (record s { closing = true }) in
    let c : Calm s t = pause_reading_now-Calm (record s { closing = true }) in
    if-cases (Takes [] s) s.closing s
      (if t.write_backlog_size == 0 then schedule_finalize_close t else t)
      (λ _. Calm-Takes s s (Calm-refl s))
      (λ _.
        if-cases (Takes [] s) (t.write_backlog_size == 0) (schedule_finalize_close t) t
          (λ _. Calm-then [] s t (schedule_finalize_close t) c (finalize-Takes t))
          (λ _. Calm-Takes s t c))

force_close-Takes : (s : Sender) → Takes [] s (force_close s)
unfolding force_close clear_write_backlog schedule_finalize_close
force_close-Takes s =
    if-cases (Takes [] s) s.finalizing_close s
      (schedule_finalize_close (clear_write_backlog (stop_backlog_writing (start_closing s))))
      (λ _. Calm-Takes s s (Calm-refl s))
      (λ _.
        final-Takes [] s
          (schedule_finalize_close (clear_write_backlog (stop_backlog_writing (start_closing s))))
          refl (λ _. refl))

-- The datagram is over, or the call was for nothing.
abbrev Tries : Datagram → Sender → Sender × Bool → Type 0
Tries d s (t, over) =
    (datagrams t.attempts ≡ datagrams s.attempts ++ (if over then d ∷ [] else []))
    × (t.write_backlog ≡ s.write_backlog)
    × (t.write_backlog_size ≡ s.write_backlog_size)
    × (t.finalizing_close ≡ s.finalizing_close)

tried-Tries : (d : Datagram) (s : Sender) (r : List Answer × Sent) → Tries d s (tried d s r)
unfolding tried
tried-Tries d s (script, sent) =
    (datagrams-append s.attempts (record { datagram = d; went_out = true } ∷ []), refl, refl, refl)
tried-Tries d s (script, again) = (sym (append-nil (datagrams s.attempts)), refl, refl, refl)
tried-Tries d s (script, failed e) =
    (datagrams-append s.attempts (record { datagram = d; went_out = false } ∷ []), refl, refl, refl)

queue-Takes : (n : ℕ) (d : Datagram) (s : Sender) → n ≡ d.len → Takes (d ∷ []) s (queue n d s)
unfolding queue weight
queue-Takes n d s e =
    Takes-Calm (d ∷ []) s t (maybe_pause (start_backlog_writing t))
      (
        (λ _. sym (append_assoc (datagrams s.attempts) s.write_backlog (d ∷ []))),
        (λ h. omega (arith, e, h, weigh-append s.write_backlog (d ∷ []))),
        λ f. f,
      )
      (Calm-trans t (start_backlog_writing t) (maybe_pause (start_backlog_writing t))
        (start_backlog_writing-Calm t) (maybe_pause-Calm (start_backlog_writing t)))
  where
    t : Sender
    t = record s {
      write_backlog = s.write_backlog ++ d ∷ [];
      write_backlog_size = s.write_backlog_size + (n + header_size);
    }

weigh_nothing : (ds : List Datagram) → weigh ds ≡ 0 → ds ≡ []
unfolding weight
weigh_nothing [] h = refl
weigh_nothing (d ∷ ds) h = absurd (omega arith)

-- A datagram that is over goes behind the others, if none waits.
over-Takes :
    (d : Datagram) (s t : Sender) → s.write_backlog ≡ [] → Tries d s (t, true) → Takes (d ∷ []) s t
over-Takes d s t n k = (
  (λ _.
      ap (λ x. x ++ t.write_backlog) k.0
      ∙ ap (λ x. (datagrams s.attempts ++ d ∷ []) ++ x) (k.1 ∙ n)
      ∙ append-nil (datagrams s.attempts ++ d ∷ [])
      ∙ ap (λ x. x ++ d ∷ []) (sym (append-nil (datagrams s.attempts)))
      ∙ ap (λ x. (datagrams s.attempts ++ x) ++ d ∷ []) (sym n)),
  (λ h. k.2 ∙ h ∙ ap weigh (sym k.1)),
  λ f. k.3 ∙ f,
)

missed-Calm : (d : Datagram) (s t : Sender) → Tries d s (t, false) → Calm s t
missed-Calm d s t k = (
  ap (λ x. x ++ t.write_backlog) (k.0 ∙ append-nil (datagrams s.attempts))
      ∙ ap (λ x. datagrams s.attempts ++ x) k.1,
  (λ h. k.2 ∙ h ∙ ap weigh (sym k.1)),
  k.3,
)

try_or_queue-Takes :
    (n : ℕ) (d : Datagram) (s : Sender)
    → n ≡ d.len
    → s.write_backlog ≡ []
    → Takes (d ∷ []) s (try_or_queue n d s)
unfolding try_or_queue try_sendto
try_or_queue-Takes n d s q e =
    by (tried d s (send_script s.script)) (tried-Tries d s (send_script s.script))
  where
    by : (r : Sender × Bool) → Tries d s r → Takes (d ∷ []) s (if r.1 then r.0 else queue n d r.0)
    by (t, true) k = over-Takes d s t e k
    by (t, false) k =
        Calm-then (d ∷ []) s t (queue n d t) (missed-Calm d s t k) (queue-Takes n d t q)

send_now-Takes :
    (n : ℕ) (d : Datagram) (s : Sender)
    → n ≡ d.len
    → IsWeighed s
    → Takes (d ∷ []) s (send_now n d s)
unfolding send_now
send_now-Takes n d s q h =
    if-cases (Takes (d ∷ []) s) (s.write_backlog_size == 0) (try_or_queue n d s) (queue n d s)
      (λ z. try_or_queue-Takes n d s q (weigh_nothing s.write_backlog (ground (arith, h))))
      (λ _. queue-Takes n d s q)

count_closed-Calm : (s : Sender) → Calm s (count_closed s)
unfolding count_closed
count_closed-Calm s =
    if-cases (Calm s) (leb 5 s.closed_write_count)
      (emit log_warning (record s { closed_write_count = s.closed_write_count + 1 }))
      (record s { closed_write_count = s.closed_write_count + 1 }) (λ _. (refl, (λ h. h), refl))
      (λ _. (refl, (λ h. h), refl))

-- A transport whose close is final drops the datagram, which the law of an open one leaves out.
send_or_drop-Takes :
    (n : ℕ) (d : Datagram) (s : Sender)
    → n ≡ d.len
    → IsWeighed s
    → Takes (d ∷ []) s (send_or_drop n d s)
unfolding send_or_drop
send_or_drop-Takes n d s q h =
    if-cases (Takes (d ∷ []) s) (s.finalizing_close && is_some s.address) (count_closed s)
      (send_now n d s)
      (λ e.
        let c : Calm s (count_closed s) = count_closed-Calm s in
        final-Takes (d ∷ []) s (count_closed s) (c.2 ∙ ground arith) c.1)
      (λ _. send_now-Takes n d s q h)

drain-Calm :
    (ds : List Datagram) (s : Sender) → s.write_backlog ≡ ds → IsWeighed s → Calm s (drain ds s)
unfolding drain try_sendto
drain-Calm [] s e h = Calm-refl s
drain-Calm (d ∷ ds) s e h =
    by (tried d s (send_script s.script)) (tried-Tries d s (send_script s.script))
      (λ t f g. drain-Calm ds t f g)
  where
    next : Sender → Sender
    next t = record t { write_backlog = ds; write_backlog_size = t.write_backlog_size - weight d }

    weighed : (t : Sender) → Tries d s (t, true) → IsWeighed (next t)
    weighed t k = omega (arith, k.2, h, ap weigh e)

    moved : (t : Sender) → Tries d s (t, true) → Calm s (next t)
    moved t k = (
      ap (λ x. x ++ ds) k.0
          ∙ append_assoc (datagrams s.attempts) (d ∷ []) ds
          ∙ ap (λ x. datagrams s.attempts ++ x) (sym e),
      (λ _. weighed t k),
      k.3,
    )

    by :
        (r : Sender × Bool)
        → Tries d s r
        → ((t : Sender) → t.write_backlog ≡ ds → IsWeighed t → Calm t (drain ds t))
        → Calm s (if s.write_backlog_size == 0 then s else if r.1 then drain ds (next r.0) else r.0)
    by (t, true) k ih =
        if-cases (Calm s) (s.write_backlog_size == 0) s (drain ds (next t)) (λ _. Calm-refl s)
          (λ _.
            Calm-trans s (next t) (drain ds (next t)) (moved t k) (ih (next t) refl (weighed t k)))
    by (t, false) k ih =
        if-cases (Calm s) (s.write_backlog_size == 0) s t (λ _. Calm-refl s)
          (λ _. missed-Calm d s t k)

after_drain-Takes : (s : Sender) → Takes [] s (after_drain s)
unfolding after_drain end_drain
after_drain-Takes s =
    let t : Sender = stop_backlog_writing s in
    let c : Calm s t = stop_backlog_writing-Calm s in
    if-cases (Takes [] s) (s.write_backlog_size == 0)
      (if t.closing && not t.finalizing_close then schedule_finalize_close t else t) s
      (λ _.
        if-cases (Takes [] s) (t.closing && not t.finalizing_close) (schedule_finalize_close t) t
          (λ _. Calm-then [] s t (schedule_finalize_close t) c (finalize-Takes t))
          (λ _. Calm-Takes s t c))
      (λ _. Calm-Takes s s (Calm-refl s))

write_ready-Takes : (s : Sender) → IsWeighed s → Takes [] s (write_ready s)
unfolding write_ready
write_ready-Takes s h =
    let t : Sender = drain s.write_backlog s in
    let u : Sender = maybe_resume t in
    Calm-then [] s u (after_drain u)
      (Calm-trans s t u (drain-Calm s.write_backlog s refl h) (maybe_resume-Calm t))
      (after_drain-Takes u)

-- What is kept of a buffer has as many items as the buffer.
abbrev pub IsCounted : Op → Type 0
IsCounted (sendto_call d addr) = items d ≡ items (maybe_copy d)
IsCounted _ = Unit {0}

-- What a call hands over: a datagram, unless its address is refused.
module _ (is_valid : Option ℕ → Bool) where
  abbrev pub addressed : Buffer → Option (Option ℕ) → Sender → List Datagram
  addressed d none s = []
  addressed d (some addr) s = if is_sendable is_valid addr s then kept d addr ∷ [] else []

  abbrev pub handed_over : Op → Sender → List Datagram
  handed_over (sendto_call d addr) s = addressed d (settle_address s.address addr) s
  handed_over _ s = []

  abbrev pub accepted : List Op → Sender → List Datagram
  accepted [] s = []
  accepted (o ∷ ops) s = handed_over o s ++ accepted ops (step is_valid o s)

  send_to-Takes :
      (d : Buffer) (addr : Option (Option ℕ)) (s : Sender)
      → items d ≡ items (maybe_copy d)
      → IsWeighed s
      → Takes (addressed d addr s) s (send_to is_valid d addr s).0
  unfolding send_to kept
  send_to-Takes d none s q h = Calm-Takes s s (Calm-refl s)
  send_to-Takes d (some addr) s q h = pick (is_sendable is_valid addr s)
    where
      g : Datagram
      g = kept d addr

      pick :
          (b : Bool)
          → let r : Sender × Option Exc =
              if b then (send_or_drop (items d) g s, none) else (s, some (bad_address addr)) in
            Takes (if b then g ∷ [] else []) s r.0
      pick true = send_or_drop-Takes (items d) g s q h
      pick false = Calm-Takes s s (Calm-refl s)

  step-Takes :
      (o : Op) (s : Sender)
      → IsCounted o
      → IsWeighed s
      → Takes (handed_over o s) s (step is_valid o s)
  unfolding step sendto_nocheck
  step-Takes (sendto_call d addr) s q h = send_to-Takes d (settle_address s.address addr) s q h
  step-Takes write_ready_event s q h =
      if-cases (Takes [] s) s.write_ready_registered (write_ready s) s (λ _. write_ready-Takes s h)
        (λ _. Calm-Takes s s (Calm-refl s))
  step-Takes close_call s q h = close-Takes s
  step-Takes abort_call s q h = force_close-Takes s

  -- Over every history of a datagram transport whose size is that of its backlog, before
  -- `_finalize_close` is called, in which no buffer is a memoryview of wide items over something other
  -- than bytes: the size stays so, a datagram counting the `len` of what is kept of it and 8 more.
  -- Unless the close is final at its end, the datagrams that the system was asked to send and did not
  -- put off, and then those in the backlog, are those of before and then those that were handed over
  -- with an address that is not refused, each whole and once, in order. A close that is final stays so.
  pub run-Takes :
      (ops : List Op) (s : Sender)
      → All IsCounted ops
      → IsWeighed s
      → Takes (accepted ops s) s (run is_valid ops s)
  unfolding run
  run-Takes [] s q h = Calm-Takes s s (Calm-refl s)
  run-Takes (o ∷ ops) s q h =
      let k : Takes (handed_over o s) s (step is_valid o s) = step-Takes o s q.0 h in
      Takes-trans (handed_over o s) (accepted ops (step is_valid o s)) s (step is_valid o s)
        (run is_valid ops (step is_valid o s)) k (run-Takes ops (step is_valid o s) q.1 (k.1 h))
