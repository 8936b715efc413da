-- ===== src/Tls/Bodies.antt =====
-- The bodies of the writes of a client (aiofastnet/ssl_transport.pyx).
use aiofastnet.Base.{
  ℕ, ◌≡◌, refl, sym, ap, ◌∙◌, Bool, true, false, Option, none, some, List, [], ◌∷◌, ◌++◌, length,
  append-nil, append_assoc, nil_of_length, ◌==◌, if-cases, arith,
}
use aiofastnet.Stream.Kernel.{flatten}
use aiofastnet.Tls.{Tls, Reply, ok, raised, and_then, done, flush_outgoing_bio, maybe_pause}
use aiofastnet.Tls.Loops.{write_impl, append_to_backlog}
use aiofastnet.Tls.Run.{
  append_tail, write_now, write_body, append_all, append_raw, write_lines, lines_body,
}
use aiofastnet.Tls.Calm.{
  IsSound, Quiet, Calms, Calm-IsSound, flush_outgoing_bio-Calms, maybe_pause-Calm,
}
use aiofastnet.Tls.Written.{rest, Wrote, write_impl-Wrote}
use aiofastnet.Tls.Calls.{content, Puts, append_raw-Puts, append_to_backlog-Puts, Puts-Calm}

Puts-trans :
    {A B : Type 0} (d e : List ℕ) (s t : Tls) (a : A) (r : Tls × Reply B)
    → Puts d s (t, ok a)
    → Puts e t r
    → Puts (d ++ e) s r
Puts-trans d e s t a (u, ok b) p q =
    (q.0 ∙ p.0, q.1, q.2, q.3 ∙ ap (λ x. x ++ e) p.3 ∙ append_assoc (content s) d e)
Puts-trans d e s t a (u, raised x) p q =
    (q.0 ∙ p.0, q.1, q.2, (q.3.0, q.3.1 ∙ ap (λ y. y ++ e) p.3 ∙ append_assoc (content s) d e), q.4)

-- What the engine did with the data, over a backlog of no bytes.
wrote-content :
    (d tail : List ℕ) (s t : Tls)
    → flatten s.write_backlog ≡ []
    → t.write_backlog ≡ s.write_backlog
    → t.taken ++ tail ≡ s.taken ++ d
    → content t ++ tail ≡ content s ++ d
wrote-content d tail s t n b w =
    ap (λ x. (t.taken ++ x) ++ tail) (ap flatten b ∙ n)
    ∙ ap (λ x. x ++ tail) (append-nil t.taken)
    ∙ w
    ∙ ap (λ x. x ++ d) (sym (append-nil s.taken))
    ∙ ap (λ x. (s.taken ++ x) ++ d) (sym n)

Quiet-IsSound : (s t : Tls) → Quiet s t → IsSound s → IsSound t
Quiet-IsSound s t c h = (
  c.5 h.0,
  (λ f. c.4 ∙ h.1 (sym c.1 ∙ f) ∙ ap (λ b. length (flatten b)) (sym c.3)),
  λ f. c.4 ∙ h.2 (sym c.1 ∙ f),
)

breaks-content :
    (d : List ℕ) (s t : Tls)
    → flatten s.write_backlog ≡ []
    → (lost : List ℕ) × (t.taken ++ lost ≡ s.taken ++ d)
    → (lost : List ℕ) × (t.taken ++ lost ≡ content s ++ d)
breaks-content d s t n l =
    (l.0, l.1 ∙ ap (λ x. x ++ d) (sym (append-nil s.taken)) ∙ ap (λ x. (s.taken ++ x) ++ d) (sym n))

append_tail-Puts :
    (tail : Option (List ℕ)) (t : Tls)
    → t.finalizing_close ≡ false
    → IsSound t
    → Puts (rest tail) t (append_tail true tail t, ok tt)
unfolding append_tail
append_tail-Puts none t f h = (refl, f, h, sym (append-nil (content t)))
append_tail-Puts (some d) t f h = append_to_backlog-Puts d true t f h

write_now-Puts :
    (d : List ℕ) (s : Tls)
    → s.finalizing_close ≡ false
    → flatten s.write_backlog ≡ []
    → IsSound s
    → Puts d s (write_now d s)
unfolding write_now
write_now-Puts d s f n h = wrote (write_impl d s) (write_impl-Wrote d s)
  where
    tailed :
        (tail : Option (List ℕ)) (t : Tls)
        → Wrote s d (t, ok tail)
        → (r : Tls × Reply Bool) → Calms t r
        → Puts d s (and_then r (λ _ u. done tt (append_tail true tail u)))
    tailed tail t w (u, ok b) c =
        let i : IsSound u = Calm-IsSound t u c (Quiet-IsSound s t w.0 h) in
        let p : Puts (rest tail) u (append_tail true tail u, ok tt) =
          append_tail-Puts tail u (c.0.1 ∙ w.0.1 ∙ f) i in
        (
          p.0 ∙ c.0.0 ∙ w.0.0,
          p.1,
          p.2,
          p.3
              ∙ wrote-content d (rest tail) s u n (c.0.3 ∙ w.0.3)
                  (ap (λ x. x ++ rest tail) c.1 ∙ w.1),
        )
    tailed tail t w (u, raised e) c = (
      c.0.0.0 ∙ w.0.0,
      c.0.0.1 ∙ w.0.1 ∙ f,
      c.0.0.5 (w.0.5 h.0),
      breaks-content d s u n (rest tail, ap (λ x. x ++ rest tail) c.0.1 ∙ w.1),
      c.1,
    )

    wrote :
        (r : Tls × Reply (Option (List ℕ)))
        → Wrote s d r
        → Puts d s (
            and_then r (λ tail t.
              and_then (flush_outgoing_bio t) (λ _ u. done tt (append_tail true tail u))))
    wrote (t, ok tail) w = tailed tail t w (flush_outgoing_bio t) (flush_outgoing_bio-Calms t)
    wrote (t, raised e) w = (w.0.0, w.0.1 ∙ f, w.0.5 h.0, breaks-content d s t n w.1, w.2)

-- A backlog whose size is 0 has no bytes.
pub no_bytes :
    (s : Tls)
    → s.finalizing_close ≡ false
    → IsSound s
    → (s.write_backlog_size == 0) ≡ true
    → flatten s.write_backlog ≡ []
no_bytes s f h z = nil_of_length (flatten s.write_backlog) (ground (arith, h.1 f))

pub write_body-Puts :
    (d : List ℕ) (s : Tls) → s.finalizing_close ≡ false → IsSound s → Puts d s (write_body d s)
unfolding write_body
write_body-Puts [] s f h = (refl, f, h, sym (append-nil (content s)))
write_body-Puts (x ∷ d) s f h =
    if-cases (Puts (x ∷ d) s) (s.write_backlog_size == 0) (write_now (x ∷ d) s)
      (append_to_backlog (x ∷ d) true s, ok tt)
      (λ z. write_now-Puts (x ∷ d) s f (no_bytes s f h z) h)
      (λ _. append_to_backlog-Puts (x ∷ d) true s f h)

pub append_all-Puts :
    (ds : List (List ℕ)) (s : Tls)
    → s.finalizing_close ≡ false
    → IsSound s
    → Puts (flatten ds) s (append_all ds s, ok tt)
unfolding append_all flatten
append_all-Puts [] s f h = (refl, f, h, sym (append-nil (content s)))
append_all-Puts (d ∷ ds) s f h =
    let t : Tls = append_to_backlog d false s in
    let p : Puts d s (t, ok tt) = append_to_backlog-Puts d false s f h in
    Puts-trans d (flatten ds) s t tt (append_all ds t, ok tt) p (append_all-Puts ds t p.1 p.2)

pub write_lines-Puts :
    (ds : List (List ℕ)) (s : Tls)
    → s.finalizing_close ≡ false
    → flatten s.write_backlog ≡ []
    → IsSound s
    → Puts (flatten ds) s (write_lines ds s)
unfolding write_lines flatten
write_lines-Puts [] s f n h = (refl, f, h, sym (append-nil (content s)))
write_lines-Puts (d ∷ ds) s f n h =
    wrote (write_impl d s) (write_impl-Wrote d s) (λ t g m k. write_lines-Puts ds t g m k)
  where
    wrote :
        (r : Tls × Reply (Option (List ℕ)))
        → Wrote s d r
        → ((t : Tls)
            → t.finalizing_close ≡ false
            → flatten t.write_backlog ≡ []
            → IsSound t
            → Puts (flatten ds) t (write_lines ds t))
        → Puts {A = Unit {0}} (d ++ flatten ds) s (
            and_then r (λ tail t. elim tail [
              | none ↦ write_lines ds t
              | some left ↦ done {A = Unit {0}} tt (append_all ds (append_raw left t))
            ]))
    wrote (t, ok none) w ih =
        let g : t.finalizing_close ≡ false = w.0.1 ∙ f in
        let i : IsSound t = Quiet-IsSound s t w.0 h in
        Puts-trans d (flatten ds) s t tt (write_lines ds t)
          (w.0.0, g, i, sym (append-nil (content t)) ∙ wrote-content d [] s t n w.0.3 w.1)
          (ih t g (ap flatten w.0.3 ∙ n) i)
    wrote (t, ok (some left)) w ih =
        let g : t.finalizing_close ≡ false = w.0.1 ∙ f in
        let p : Puts left t (append_raw left t, ok tt) =
          append_raw-Puts left t g (Quiet-IsSound s t w.0 h) in
        Puts-trans d (flatten ds) s (append_raw left t) tt
          (append_all ds (append_raw left t), ok tt)
          (p.0 ∙ w.0.0, p.1, p.2, p.3 ∙ wrote-content d left s t n w.0.3 w.1)
          (append_all-Puts ds (append_raw left t) p.1 p.2)
    wrote (t, raised e) w ih = (
      w.0.0,
      w.0.1 ∙ f,
      w.0.5 h.0,
      (
        (breaks-content d s t n w.1).0 ++ flatten ds,
        sym (append_assoc t.taken (breaks-content d s t n w.1).0 (flatten ds))
            ∙ ap (λ x. x ++ flatten ds) (breaks-content d s t n w.1).1
            ∙ append_assoc (content s) d (flatten ds),
      ),
      w.2,
    )

pub lines_body-Puts :
    (ds : List (List ℕ)) (s : Tls)
    → s.finalizing_close ≡ false
    → IsSound s
    → Puts (flatten ds) s (lines_body ds s)
unfolding lines_body
lines_body-Puts ds s f h =
    if-cases (Puts (flatten ds) s) (s.write_backlog_size == 0)
      (and_then (write_lines ds s)
        (λ _ t. and_then (flush_outgoing_bio t) (λ _ u. done tt (maybe_pause u))))
      (maybe_pause (append_all ds s), ok tt)
      (λ z. lines (write_lines ds s) (write_lines-Puts ds s f (no_bytes s f h z) h))
      (λ _.
        Puts-Calm (flatten ds) s (append_all ds s) (maybe_pause (append_all ds s)) tt tt
          (append_all-Puts ds s f h) (maybe_pause-Calm (append_all ds s)))
  where
    paused :
        (t : Tls) (r : Tls × Reply Bool)
        → Puts (flatten ds) s (t, ok tt)
        → Calms t r
        → Puts (flatten ds) s (and_then r (λ _ u. done {A = Unit {0}} tt (maybe_pause u)))
    paused t (u, ok b) p c =
        Puts-Calm (flatten ds) s u (maybe_pause u) tt tt (Puts-Calm (flatten ds) s t u tt tt p c)
          (maybe_pause-Calm u)
    paused t (u, raised e) p c = (
      c.0.0.0 ∙ p.0,
      c.0.0.1 ∙ p.1,
      c.0.0.5 p.2.0,
      (flatten t.write_backlog, ap (λ x. x ++ flatten t.write_backlog) c.0.1 ∙ p.3),
      c.1,
    )

    lines :
        (r : Tls × Reply (Unit {0}))
        → Puts (flatten ds) s r
        → Puts (flatten ds) s (
            and_then r (λ _ t.
              and_then (flush_outgoing_bio t) (λ _ u. done {A = Unit {0}} tt (maybe_pause u))))
    lines (t, ok tt) p = paused t (flush_outgoing_bio t) p (flush_outgoing_bio-Calms t)
    lines (t, raised e) p = p
