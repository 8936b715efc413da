-- ===== src/Tls/Promise.antt =====
-- What a TLS transport promises over its life (aiofastnet/ssl_transport.pyx).
use aiofastnet.Base.{
  ℕ, ◌≤◌, ◌≡◌, refl, sym, ap, ◌∙◌, Bool, true, false, ◌||◌, List, [], ◌∷◌, ◌++◌, append-nil,
  append_assoc, length, if◌then◌else◌, if-cases, Bool-cases, inl, inr, arith,
}
use aiofastnet.Stream.Kernel
use aiofastnet.Stream.Kernel.{flatten}
use aiofastnet.Stream.Kernel.Wire.{flatten-snoc}
use aiofastnet.Tls.{
  Phase, unwrapped, in_handshake, wrapped, flushing, in_shutdown, Answer, Exc, Waiter,
  handshake_timer, Tls, Reply, ok, raised, emit, is_over, is_closing, set_state, allowed,
}
use aiofastnet.Tls.Reads.{incoming_bio_updated}
use aiofastnet.Tls.Run.{
  Op, write_call, writelines_call, set_limits_call, write_eof_call, sendfile_call, close_call,
  abort_call, pause_reading_call, resume_reading_call, read_ready_event, write_ready_event,
  retry_read_event, handshake_timeout, shutdown_timeout, finalize_event, init, start_handshake,
  constructed, construct, step, exceptions, run,
}
use aiofastnet.Tls.Calm.{rank, held, held_of, IsSound, Rises, After}
use aiofastnet.Tls.Closed.{Ends}
use aiofastnet.Tls.Events.{incoming_bio_updated-After}
use aiofastnet.Tls.Calls.{offered}
use aiofastnet.Tls.History.{taking, given, refusal, step-Steps}

-- The data of the writes that found the transport open.
abbrev pub offer : Op → List ℕ
offer (write_call d) = d
offer (writelines_call ds) = flatten ds
offer _ = []

abbrev pub accepted : List Op → Tls → List ℕ
accepted [] s = []
accepted (o ∷ ops) s = (if is_closing s then [] else offer o) ++ accepted ops (step o s).0

held-taking :
    (d : List ℕ) (s : Tls) → held (taking d s) ≡ held s ++ (if is_closing s then [] else d)
unfolding is_closing
held-taking d s = pick (s.finalizing_close || is_over s.phase) (λ e. ground arith)
  where
    open_held : s.finalizing_close ≡ false → held s ≡ s.taken ++ flatten s.write_backlog
    open_held f = ap (λ b. held_of b s.taken s.write_backlog) f

    pick :
        (b : Bool)
        → (b ≡ false → s.finalizing_close ≡ false)
        → held (if b then s else offered d s) ≡ held s ++ (if b then [] else d)
    pick true e = sym (append-nil (held s))
    pick false e =
        ap (λ b. held_of b s.taken (s.write_backlog ++ d ∷ [])) (e refl)
        ∙ ap (λ x. s.taken ++ x) (flatten-snoc s.write_backlog d)
        ∙ sym (append_assoc s.taken (flatten s.write_backlog) d)
        ∙ ap (λ x. x ++ d) (sym (open_held (e refl)))

held-nothing : (s : Tls) → held s ≡ held s ++ (if is_closing s then [] else [])
held-nothing s =
    if-cases (λ x. held s ≡ held s ++ x) (is_closing s) [] [] (λ _. sym (append-nil (held s)))
      (λ _. sym (append-nil (held s)))

held-given :
    (o : Op) (s : Tls) → held (given o s) ≡ held s ++ (if is_closing s then [] else offer o)
held-given (write_call d) s = held-taking d s
held-given (writelines_call ds) s = held-taking (flatten ds) s
held-given (set_limits_call high low) s = held-nothing s
held-given write_eof_call s = held-nothing s
held-given sendfile_call s = held-nothing s
held-given close_call s = held-nothing s
held-given abort_call s = held-nothing s
held-given pause_reading_call s = held-nothing s
held-given resume_reading_call s = held-nothing s
held-given (read_ready_event arrivals) s = held-nothing s
held-given write_ready_event s = held-nothing s
held-given retry_read_event s = held-nothing s
held-given handshake_timeout s = held-nothing s
held-given shutdown_timeout s = held-nothing s
held-given finalize_event s = held-nothing s

-- Only the bytes differ.
taking-Rises : (d : List ℕ) (s t : Tls) → Rises (taking d s) t → Rises s t
taking-Rises d s t =
    if-cases (λ u. Rises u t → Rises s t) (is_closing s) s (offered d s) (λ _ r. r) (λ _ r. r)

given-Rises : (o : Op) (s t : Tls) → Rises (given o s) t → Rises s t
given-Rises (write_call d) s t r = taking-Rises d s t r
given-Rises (writelines_call ds) s t r = taking-Rises (flatten ds) s t r
given-Rises (set_limits_call high low) s t r = r
given-Rises write_eof_call s t r = r
given-Rises sendfile_call s t r = r
given-Rises close_call s t r = r
given-Rises abort_call s t r = r
given-Rises pause_reading_call s t r = r
given-Rises resume_reading_call s t r = r
given-Rises (read_ready_event arrivals) s t r = r
given-Rises write_ready_event s t r = r
given-Rises retry_read_event s t r = r
given-Rises handshake_timeout s t r = r
given-Rises shutdown_timeout s t r = r
given-Rises finalize_event s t r = r

over-rank : (p : Phase) → is_over p ≡ true → 2 ≤ rank p
unfolding is_over
over-rank unwrapped e = omega arith
over-rank flushing e = omega arith
over-rank in_shutdown e = omega arith
over-rank in_handshake e = absurd (ground arith)
over-rank wrapped e = absurd (ground arith)

rank-over : (p : Phase) → 2 ≤ rank p → is_over p ≡ true
unfolding is_over
rank-over unwrapped h = refl
rank-over flushing h = refl
rank-over in_shutdown h = refl
rank-over in_handshake h = absurd (omega arith)
rank-over wrapped h = absurd (omega arith)

-- A transport that is closing goes on closing.
closing-Rises : (s t : Tls) → Rises s t → is_closing s ≡ true → is_closing t ≡ true
unfolding is_closing
closing-Rises s t up c = elim (Bool-cases s.finalizing_close) [
  | inl f ↦ let g : t.finalizing_close ≡ true = up.1 f in ground arith
  | inr f ↦
      let o : is_over t.phase ≡ true =
        rank-over t.phase (omega (arith, up.0, over-rank s.phase (ground arith))) in
      ground arith
]

final-closing : (s : Tls) → s.finalizing_close ≡ true → is_closing s ≡ true
unfolding is_closing
final-closing s f = ground arith

accepted-closing : (ops : List Op) (s : Tls) → IsSound s → is_closing s ≡ true → accepted ops s ≡ []
accepted-closing [] s h c = refl
accepted-closing (o ∷ ops) s h c =
    if-cases (λ x. x ++ accepted ops (step o s).0 ≡ []) (is_closing s) [] (offer o)
      (λ _.
        let x : Ends (given o s) ((step o s).0, ok tt) = (step-Steps o s h).1 in
        accepted-closing ops (step o s).0 x.1
          (closing-Rises s (step o s).0 (given-Rises o s (step o s).0 x.0) c))
      (λ e. absurd (ground arith))

-- What is lost in a step is what the rest of the history loses too.
join-lost :
    (s t v : Tls) (now later : List ℕ)
    → Rises t v
    → (t.finalizing_close ≡ true → later ≡ [])
    → ((lost : List ℕ) × ((held t ++ lost ≡ held s ++ now)
          × (t.finalizing_close ≡ false → lost ≡ [])))
    → ((lost : List ℕ) × ((held v ++ lost ≡ held t ++ later)
          × (v.finalizing_close ≡ false → lost ≡ [])))
    → (lost : List ℕ) × ((held v ++ lost ≡ held s ++ (now ++ later))
        × (v.finalizing_close ≡ false → lost ≡ []))
join-lost s t v now later up closed l m = elim (Bool-cases t.finalizing_close) [
  | inl f ↦ (
    m.0 ++ l.0,
    (
      sym (append_assoc (held v) m.0 l.0)
          ∙ ap (λ x. x ++ l.0) (m.1.0 ∙ ap (λ x. held t ++ x) (closed f) ∙ append-nil (held t))
          ∙ l.1.0
          ∙ ap (λ x. held s ++ x) (sym (append-nil now) ∙ ap (λ x. now ++ x) (sym (closed f))),
      λ o. absurd (ground (arith, up.1 f)),
    ),
  )
  | inr f ↦ (
    m.0,
    (
      m.1.0
          ∙ ap (λ x. x ++ later)
              (sym (append-nil (held t)) ∙ ap (λ x. held t ++ x) (sym (l.1.1 f)) ∙ l.1.0)
          ∙ append_assoc (held s) now later,
      m.1.1,
    ),
  )
]

-- What a history refuses.
abbrev pub refusals : List Op → List Exc
refusals [] = []
refusals (o ∷ ops) = refusal o ++ refusals ops

-- Over a history only what is refused is raised, the transport stays sound, its phase never goes
-- back, and the data are kept in order.
abbrev Lives : Tls → List Exc → List ℕ → Tls × List Exc → Type 0
Lives s es d r =
    (r.1 ≡ es)
    × IsSound r.0
    × Rises s r.0
    × ((lost : List ℕ) × ((held r.0 ++ lost ≡ held s ++ d)
          × (r.0.finalizing_close ≡ false → lost ≡ [])))

run-Lives :
    (ops : List Op) (s : Tls) → IsSound s → Lives s (refusals ops) (accepted ops s) (run ops s)
unfolding run
run-Lives [] s h = (refl, h, (omega arith, λ f. f), ([], (refl, λ _. refl)))
run-Lives (o ∷ ops) s h =
    let now : List ℕ = if is_closing s then [] else offer o in
    let t : Tls = (step o s).0 in
    let q : exceptions (step o s).1 ≡ refusal o = (step-Steps o s h).0 in
    let x : Ends (given o s) (t, ok tt) = (step-Steps o s h).1 in
    let k : Lives t (refusals ops) (accepted ops t) (run ops t) = run-Lives ops t x.1 in
    let up : Rises s t = given-Rises o s t x.0 in
    (
      ap (λ es. es ++ (run ops t).1) q ∙ ap (λ es. refusal o ++ es) k.0,
      k.1,
      (omega (arith, up.0, k.2.0), λ f. k.2.1 (up.1 f)),
      join-lost s t (run ops t).0 now (accepted ops t) k.2
          (λ f. accepted-closing ops t x.1 (final-closing t f))
          (x.2.0, (x.2.1.0 ∙ held-given o s, x.2.1.1)) k.3,
    )

init-IsSound :
    (server : Bool) (w : Waiter) (script : List Answer) (answers : List Kernel.Answer)
    → IsSound (init server w script answers)
unfolding init flatten
init-IsSound server w script answers = (
  (refl, (λ _. refl), (λ e. absurd (ground arith)), λ e. absurd (ground arith)),
  (λ _. refl),
  λ _. refl,
)

-- A transport that its constructor returns.
abbrev pub Built : (Tls → Type 0) → Tls × Reply (Unit {0}) → Type 0
Built P (t, ok _) = P t
Built P (t, raised e) = Unit

nil_front : (xs ys : List ℕ) → xs ++ ys ≡ [] → xs ≡ []
nil_front [] ys e = refl
nil_front (x ∷ xs) ys e = absurd (ground (arith, ap length e))

constructed-made :
    (s : Tls) (r : Tls × Reply (Unit {0}))
    → held s ≡ []
    → After s r
    → Built (λ t. IsSound t × (held t ≡ [])) (constructed r)
unfolding constructed
constructed-made s (t, ok u) e x = (x.1, nil_front (held t) x.2.0 (x.2.1.0 ∙ e))
constructed-made s (t, raised f) e x = tt

-- A new transport whose handshake has begun is sound and has taken no data.
construct-made :
    (server : Bool) (w : Waiter) (script : List Answer) (answers : List Kernel.Answer)
    → Built (λ t. IsSound t × (held t ≡ [])) (construct (init server w script answers))
unfolding construct start_handshake set_state allowed init flatten
construct-made server w script answers =
    constructed-made begun (incoming_bio_updated in_handshake begun) refl
      (incoming_bio_updated-After in_handshake begun refl (init-IsSound server w script answers))
  where
    begun : Tls
    begun = emit handshake_timer (record (init server w script answers) {
      phase = in_handshake;
      handshake_timeout_handle = true;
    })

Built-Lives :
    (server : Bool) (w : Waiter) (script : List Answer) (answers : List Kernel.Answer)
    (P : Tls → Type 0)
    → ((t : Tls) → IsSound t → held t ≡ [] → P t)
    → Built P (construct (init server w script answers))
Built-Lives server w script answers P f =
    go (construct (init server w script answers)) (construct-made server w script answers)
  where
    go : (r : Tls × Reply (Unit {0})) → Built (λ t. IsSound t × (held t ≡ [])) r → Built P r
    go (t, ok u) x = f t x.0 x.1
    go (t, raised e) x = tt

-- A transport that its constructor returns keeps plaintext in order, whatever OpenSSL and the socket
-- do and whatever calls the client makes, if all data that it writes are bytes, bytearrays or
-- memoryviews whose items are single bytes. What OpenSSL has taken, and then, unless the close is
-- final, what waits in the backlog, is the data of the writes that found the transport open, in order,
-- less an end of it that is lost, which is empty unless the close is final.
pub run-in_order :
    (server : Bool) (w : Waiter) (script : List Answer) (answers : List Kernel.Answer)
    (ops : List Op)
    → Built
        (λ t.
          let v : Tls = (run ops t).0 in
          (lost : List ℕ) × ((held v ++ lost ≡ accepted ops t)
            × (v.finalizing_close ≡ false → lost ≡ [])))
        (construct (init server w script answers))
run-in_order server w script answers ops =
    Built-Lives server w script answers
      (λ t.
        let v : Tls = (run ops t).0 in
        (lost : List ℕ) × ((held v ++ lost ≡ accepted ops t)
          × (v.finalizing_close ≡ false → lost ≡ [])))
      (λ t h e.
        let k : Lives t (refusals ops) (accepted ops t) (run ops t) = run-Lives ops t h in
        (k.3.0, (k.3.1.0 ∙ ap (λ x. x ++ accepted ops t) e, k.3.1.1)))

-- Over every history of a transport that its constructor returns, in which all data that are written
-- are bytes, bytearrays or memoryviews whose items are single bytes: the records that OpenSSL made are
-- on the wire and then in the outgoing BIO, in order; no writer is registered once the close is
-- final, as it is when the socket is closed; the size of the backlog is that of its data, and 0 once
-- the close is final.
pub run-IsSound :
    (server : Bool) (w : Waiter) (script : List Answer) (answers : List Kernel.Answer)
    (ops : List Op)
    → Built (λ t. IsSound (run ops t).0) (construct (init server w script answers))
run-IsSound server w script answers ops =
    Built-Lives server w script answers (λ t. IsSound (run ops t).0)
      (λ t h _. (run-Lives ops t h).1)

-- A transport that is sound and closing is closing after every history, and takes no data from it, if
-- all data that are written are bytes, bytearrays or memoryviews whose items are single bytes: what
-- OpenSSL has taken, and then, unless the close is final, what waits in the backlog, is what it was
-- before, less an end of it that is lost, which is empty unless the close is final.
pub run-is_closing :
    (ops : List Op) (s : Tls)
    → IsSound s
    → is_closing s ≡ true
    → let v : Tls = (run ops s).0 in
      (is_closing v ≡ true)
      × ((lost : List ℕ) × ((held v ++ lost ≡ held s) × (v.finalizing_close ≡ false → lost ≡ [])))
run-is_closing ops s h c =
    let k : Lives s (refusals ops) (accepted ops s) (run ops s) = run-Lives ops s h in
    (
      closing-Rises s (run ops s).0 k.2 c,
      (
        k.3.0,
        (
          k.3.1.0 ∙ ap (λ d. held s ++ d) (accepted-closing ops s h c) ∙ append-nil (held s),
          k.3.1.1,
        ),
      ),
    )
