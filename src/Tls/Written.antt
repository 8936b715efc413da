-- ===== src/Tls/Written.antt =====
-- What writing to the engine does with the plaintext and the backlog: `_write_impl`,
-- `_append_to_backlog` and `_flush_write_backlog` (aiofastnet/ssl_transport.pyx).
use aiofastnet.Base.{
  ℕ, ◌+◌, ◌-◌, ◌≤◌, ◌≡◌, refl, sym, ap, ◌∙◌, Bool, true, false, Option, none, some, List, [], ◌∷◌,
  ◌++◌, length, drop, take, append-nil, append_assoc, take-append-drop, if-cases, Bool-cases, inl,
  inr, if◌then◌else◌, length-append, ◌==◌, arith,
}
use aiofastnet.Stream.Kernel.{flatten}
use aiofastnet.Tls.{
  Phase, unwrapped, in_handshake, wrapped, flushing, in_shutdown, SslError, ssl, want_read,
  want_write, syscall, zero_return, Answer, progress, stops, illegal_switch, Tls, Reply, ok, raised,
  and_then, done, flush_outgoing_bio, maybe_resume,
}
use aiofastnet.Tls.Loops.{
  answered, write_failure, write_script, write_impl, flush_items, flush_backlog,
  flush_write_backlog,
}
use aiofastnet.Tls.Calm.{
  held, held_of, rank, IsWired, IsSound, Quiet, Calm, Calms, After, Calm-trans, Lands, same-After,
  flush_outgoing_bio-Calms, put_records-Calm, maybe_resume-Calm,
}

abbrev pub rest : Option (List ℕ) → List ℕ
rest none = []
rest (some d) = d

-- The engine took a front of the data, and what it did not take is the tail.
abbrev pub Wrote : Tls → List ℕ → Tls × Reply (Option (List ℕ)) → Type 0
Wrote s d (t, ok tail) = Quiet s t × (t.taken ++ rest tail ≡ s.taken ++ d)
Wrote s d (t, raised e) =
    Quiet s t × ((lost : List ℕ) × (t.taken ++ lost ≡ s.taken ++ d)) × (e ≡ illegal_switch → ⊥)

Quiet-trans : (s t u : Tls) → Quiet s t → Quiet t u → Quiet s u
Quiet-trans s t u c d = (d.0 ∙ c.0, d.1 ∙ c.1, d.2 ∙ c.2, d.3 ∙ c.3, d.4 ∙ c.4, λ h. d.5 (c.5 h))

-- From a state that has taken the front of the data.
Wrote-trans :
    (s t : Tls) (d e : List ℕ) (r : Tls × Reply (Option (List ℕ)))
    → Quiet s t
    → t.taken ++ e ≡ s.taken ++ d
    → Wrote t e r
    → Wrote s d r
Wrote-trans s t d e (u, ok tail) q f w = (Quiet-trans s t u q w.0, w.1 ∙ f)
Wrote-trans s t d e (u, raised x) q f w = (Quiet-trans s t u q w.0, (w.1.0, w.1.1 ∙ f), w.2)

pub answered-Calm : (script : List Answer) (c : List ℕ) (s : Tls) → Calm s (answered script c s)
answered-Calm script c s = put_records-Calm c (record s { script = script })

write_failure-legal : (e : SslError) → write_failure e ≡ illegal_switch → ⊥
unfolding write_failure
write_failure-legal ssl q = absurd (ground arith)
write_failure-legal want_read q = absurd (ground arith)
write_failure-legal want_write q = absurd (ground arith)
write_failure-legal syscall q = absurd (ground arith)
write_failure-legal zero_return q = absurd (ground arith)

write_script-Wrote :
    (script : List Answer) (d : List ℕ) (s : Tls) → Wrote s d (write_script script d s)
unfolding write_script
write_script-Wrote script [] s = ((refl, refl, refl, refl, refl, λ h. h), refl)
write_script-Wrote [] (x ∷ d) s = ((refl, refl, refl, refl, refl, λ h. h), refl)
write_script-Wrote (progress n _ c ∷ script) (x ∷ d) s =
    Wrote-trans s t (x ∷ d) (drop n d) (write_script script (drop n d) t)
      (answered-Calm script c s).0
      (append_assoc s.taken (x ∷ take n d) (drop n d)
        ∙ ap (λ y. s.taken ++ x ∷ y) (take-append-drop n d))
      (write_script-Wrote script (drop n d) t)
  where
    t : Tls
    t = record (answered script c s) { taken = s.taken ++ x ∷ take n d }
write_script-Wrote (stops want_read c ∷ script) (x ∷ d) s = ((answered-Calm script c s).0, refl)
write_script-Wrote (stops want_write c ∷ script) (x ∷ d) s =
    retried (flush_outgoing_bio t) (flush_outgoing_bio-Calms t)
      (λ u. write_script-Wrote script (x ∷ d) u)
  where
    t : Tls
    t = answered script c s

    retried :
        (r : Tls × Reply Bool)
        → Calms t r
        → ((u : Tls) → Wrote u (x ∷ d) (write_script script (x ∷ d) u))
        → Wrote s (x ∷ d) (
            and_then r
              (λ retry u. if retry then write_script script (x ∷ d) u else done (some (x ∷ d)) u))
    retried (u, ok true) k ih =
        Wrote-trans s u (x ∷ d) (x ∷ d) (write_script script (x ∷ d) u)
          (Calm-trans s t u (answered-Calm script c s) k).0 (ap (λ y. y ++ x ∷ d) k.1) (ih u)
    retried (u, ok false) k ih =
        ((Calm-trans s t u (answered-Calm script c s) k).0, ap (λ y. y ++ x ∷ d) k.1)
    retried (u, raised e) k ih = (
      (Calm-trans s t u (answered-Calm script c s) k.0).0,
      (x ∷ d, ap (λ y. y ++ x ∷ d) k.0.1),
      k.1,
    )
write_script-Wrote (stops ssl c ∷ script) (x ∷ d) s =
    ((answered-Calm script c s).0, (x ∷ d, refl), write_failure-legal ssl)
write_script-Wrote (stops syscall c ∷ script) (x ∷ d) s =
    ((answered-Calm script c s).0, (x ∷ d, refl), write_failure-legal syscall)
write_script-Wrote (stops zero_return c ∷ script) (x ∷ d) s =
    ((answered-Calm script c s).0, (x ∷ d, refl), write_failure-legal zero_return)

pub write_impl-Wrote : (d : List ℕ) (s : Tls) → Wrote s d (write_impl d s)
unfolding write_impl
write_impl-Wrote d s = write_script-Wrote s.script d s

-- Some items are done, and the rest is left. The size has been counted down already.
abbrev Flushed : Tls → List (List ℕ) → Tls × Reply (List (List ℕ)) → Type 0
Flushed s ds (t, ok left) =
    (t.phase ≡ s.phase)
    × (t.finalizing_close ≡ s.finalizing_close)
    × (t.write_backlog_size + length (flatten ds) ≡ s.write_backlog_size + length (flatten left))
    × (IsWired s → IsWired t)
    × (t.taken ++ flatten left ≡ s.taken ++ flatten ds)
Flushed s ds (t, raised e) =
    (t.phase ≡ s.phase)
    × (t.finalizing_close ≡ s.finalizing_close)
    × (IsWired s → IsWired t)
    × ((lost : List ℕ) × (t.taken ++ lost ≡ s.taken ++ flatten ds))
    × (e ≡ illegal_switch → ⊥)

flush_items-Flushed :
    (ds : List (List ℕ)) (s : Tls)
    → length (flatten ds) ≤ s.write_backlog_size
    → Flushed s ds (flush_items ds s)
unfolding flush_items flatten
flush_items-Flushed [] s h = (refl, refl, refl, (λ w. w), refl)
flush_items-Flushed (d ∷ ds) s h =
    one (write_impl d s) (write_impl-Wrote d s) (λ t k. flush_items-Flushed ds t k)
  where
    next : Tls → Tls
    next t = record t { write_backlog_size = t.write_backlog_size - length d }

    sizes :
        (t : Tls)
        → t.write_backlog_size ≡ s.write_backlog_size
        → length (flatten ds) ≤ (next t).write_backlog_size
    sizes t e = omega (arith, length-append d (flatten ds))

    more :
        (t : Tls) (r : Tls × Reply (List (List ℕ)))
        → Quiet s t
        → t.taken ≡ s.taken ++ d
        → Flushed (next t) ds r
        → Flushed s (d ∷ ds) r
    more t (u, ok left) q w f = (
      f.0 ∙ q.0,
      f.1 ∙ q.1,
      omega (arith, f.2, q.4, length-append d (flatten ds)),
      (λ k. f.3 (q.5 k)),
      f.4 ∙ ap (λ y. y ++ flatten ds) w ∙ append_assoc s.taken d (flatten ds),
    )
    more t (u, raised e) q w f = (
      f.0 ∙ q.0,
      f.1 ∙ q.1,
      (λ k. f.2 (q.5 k)),
      (f.3.0, f.3.1 ∙ ap (λ y. y ++ flatten ds) w ∙ append_assoc s.taken d (flatten ds)),
      f.4,
    )

    one :
        (r : Tls × Reply (Option (List ℕ)))
        → Wrote s d r
        → ((t : Tls) → length (flatten ds) ≤ t.write_backlog_size → Flushed t ds (flush_items ds t))
        → Flushed s (d ∷ ds) (
            and_then r (λ tail t. elim tail [
              | none ↦
                  flush_items ds (record t { write_backlog_size = t.write_backlog_size - length d })
              | some left ↦
                  done (left ∷ ds) (record t {
                    write_backlog_size = t.write_backlog_size - length d + length left;
                  })
            ]))
    one (t, ok none) w ih =
        more t (flush_items ds (next t)) w.0 (sym (append-nil t.taken) ∙ w.1)
          (ih (next t) (sizes t w.0.4))
    one (t, ok (some left)) w ih = (
      w.0.0,
      w.0.1,
      omega (arith, w.0.4, length-append d (flatten ds), length-append left (flatten ds)),
      w.0.5,
      sym (append_assoc t.taken left (flatten ds))
          ∙ ap (λ y. y ++ flatten ds) w.1
          ∙ append_assoc s.taken d (flatten ds),
    )
    one (t, raised e) w ih = (
      w.0.0,
      w.0.1,
      w.0.5,
      (
        w.1.0 ++ flatten ds,
        sym (append_assoc t.taken w.1.0 (flatten ds))
            ∙ ap (λ y. y ++ flatten ds) w.1.1
            ∙ append_assoc s.taken d (flatten ds),
      ),
      w.2,
    )

held-open : (s : Tls) → s.finalizing_close ≡ false → held s ≡ s.taken ++ flatten s.write_backlog
held-open s f = ap (λ b. held_of b s.taken s.write_backlog) f

flush_backlog-After : (s : Tls) → IsSound s → s.finalizing_close ≡ false → After s (flush_backlog s)
unfolding flush_backlog
flush_backlog-After s h f =
    first (flush_items s.write_backlog s)
      (flush_items-Flushed s.write_backlog s (omega (arith, h.1 f)))
  where
    last :
        (left : List (List ℕ)) (t : Tls)
        → Flushed s s.write_backlog (t, ok left)
        → (r : Tls × Reply Bool) → Calms t r
        → After s (
            and_then r
              (λ _ u. done {A = Unit {0}} tt (maybe_resume (record u { write_backlog = left }))))
    last left t g (u, ok b) c = (
      (omega (arith, ap rank (m.0.0 ∙ c.0.0 ∙ g.0)), λ x. absurd (ground arith)),
      (
        m.0.5 (c.0.5 (g.3 h.0)),
        (λ _. m.0.4 ∙ c.0.4 ∙ sizes ∙ ap (λ b. length (flatten b)) (sym m.0.3)),
        λ x. absurd (ground (arith, stays)),
      ),
      (
        [],
        (
          append-nil (held v)
              ∙ held-open v stays
              ∙ ap (λ b. v.taken ++ flatten b) m.0.3
              ∙ ap (λ d. d ++ flatten left) (m.1 ∙ c.1)
              ∙ g.4
              ∙ sym (held-open s f),
          λ _. refl,
        ),
      ),
    )
      where
        v : Tls
        v = maybe_resume (record u { write_backlog = left })

        m : Calm (record u { write_backlog = left }) v
        m = maybe_resume-Calm (record u { write_backlog = left })

        stays : v.finalizing_close ≡ false
        stays = m.0.1 ∙ c.0.1 ∙ g.1 ∙ f

        sizes : t.write_backlog_size ≡ length (flatten left)
        sizes = omega (arith, g.2, h.1 f)
    last left t g (u, raised e) c = (
      (omega (arith, ap rank (c.0.0.0 ∙ g.0)), λ x. absurd (ground arith)),
      (c.0.0.5 (g.3 h.0), λ x. absurd (ground (arith, c.0.0.1 ∙ g.1 ∙ f))),
      (flatten left, ap (λ d. d ++ flatten left) c.0.1 ∙ g.4 ∙ sym (held-open s f)),
      c.1,
    )

    first :
        (r : Tls × Reply (List (List ℕ)))
        → Flushed s s.write_backlog r
        → After s (
            and_then r (λ left t.
              and_then
                (flush_outgoing_bio t)
                (λ _ u. done {A = Unit {0}} tt (maybe_resume (record u { write_backlog = left })))))
    first (t, ok left) g = last left t g (flush_outgoing_bio t) (flush_outgoing_bio-Calms t)
    first (t, raised e) g = (
      (omega (arith, ap rank g.0), λ x. absurd (ground arith)),
      (g.2 h.0, λ x. absurd (ground (arith, g.1 ∙ f))),
      (g.3.0, g.3.1 ∙ sym (held-open s f)),
      g.4,
    )

flush_some-After :
    (s : Tls)
    → IsSound s
    → After s (if s.write_backlog_size == 0 then done {A = Unit {0}} tt s else flush_backlog s)
flush_some-After s h =
    if-cases (After s) (s.write_backlog_size == 0) (s, ok tt) (flush_backlog s)
      (λ _. same-After s h)
      (λ e. elim (Bool-cases s.finalizing_close) [
        | inl f ↦ absurd (ground (arith, h.2 f))
        | inr f ↦ flush_backlog-After s h f
      ])

flush_backlog-Lands :
    (p : Phase) (s : Tls)
    → IsSound s
    → s.finalizing_close ≡ false
    → s.phase ≡ p
    → Lands p (flush_backlog s)
unfolding flush_backlog
flush_backlog-Lands p s h f e =
    first (flush_items s.write_backlog s)
      (flush_items-Flushed s.write_backlog s (omega (arith, h.1 f)))
  where
    last :
        (left : List (List ℕ)) (t : Tls)
        → t.phase ≡ p
        → (r : Tls × Reply Bool) → Calms t r
        → Lands p (
            and_then r
              (λ _ u. done {A = Unit {0}} tt (maybe_resume (record u { write_backlog = left }))))
    last left t g (u, ok b) c =
        (maybe_resume-Calm (record u { write_backlog = left })).0.0 ∙ c.0.0 ∙ g
    last left t g (u, raised x) c = tt

    first :
        (r : Tls × Reply (List (List ℕ)))
        → Flushed s s.write_backlog r
        → Lands p (
            and_then r (λ left t.
              and_then
                (flush_outgoing_bio t)
                (λ _ u. done {A = Unit {0}} tt (maybe_resume (record u { write_backlog = left })))))
    first (t, ok left) g = last left t (g.0 ∙ e) (flush_outgoing_bio t) (flush_outgoing_bio-Calms t)
    first (t, raised x) g = tt

flush_some-Lands :
    (p : Phase) (s : Tls)
    → IsSound s
    → s.phase ≡ p
    → Lands p (if s.write_backlog_size == 0 then done {A = Unit {0}} tt s else flush_backlog s)
flush_some-Lands p s h e =
    if-cases (Lands p) (s.write_backlog_size == 0) (s, ok tt) (flush_backlog s) (λ _. e)
      (λ z. elim (Bool-cases s.finalizing_close) [
        | inl f ↦ absurd (ground (arith, h.2 f))
        | inr f ↦ flush_backlog-Lands p s h f e
      ])

-- A flush of the backlog stays in its phase.
pub flush_write_backlog-Lands :
    (q p : Phase) (s : Tls) → IsSound s → s.phase ≡ p → Lands p (flush_write_backlog q s)
unfolding flush_write_backlog
flush_write_backlog-Lands wrapped p s h e = flush_some-Lands p s h e
flush_write_backlog-Lands flushing p s h e = flush_some-Lands p s h e
flush_write_backlog-Lands unwrapped p s h e = e
flush_write_backlog-Lands in_handshake p s h e = e
flush_write_backlog-Lands in_shutdown p s h e = e

pub flush_write_backlog-After :
    (p : Phase) (s : Tls) → IsSound s → After s (flush_write_backlog p s)
unfolding flush_write_backlog
flush_write_backlog-After wrapped s h = flush_some-After s h
flush_write_backlog-After flushing s h = flush_some-After s h
flush_write_backlog-After unwrapped s h = same-After s h
flush_write_backlog-After in_handshake s h = same-After s h
flush_write_backlog-After in_shutdown s h = same-After s h
