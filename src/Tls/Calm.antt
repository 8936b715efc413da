-- ===== src/Tls/Calm.antt =====
-- What the parts of a TLS transport keep (aiofastnet/ssl_transport.pyx): the records on the wire,
-- the plaintext, the writer and the phase.
use aiofastnet.Base.{
  ℕ, ◌≤◌, ◌≡◌, refl, sym, ap, ◌∙◌, Bool, true, false, Option, none, some, ltb, is_empty, is_some,
  if◌then◌else◌, List, [], ◌∷◌, ◌++◌, length, drop, take, append-nil, append_assoc,
  take-append-drop, if-cases, Bool-cases, inl, inr, ◌||◌, arith,
}
use aiofastnet.Stream.Kernel.{Kernel, Sent, sent, again, failed, flatten, aiofn_write}
use aiofastnet.Stream.Kernel.Wire.{Writes, aiofn_write-Writes}
use aiofastnet.Tls.{
  Phase, unwrapped, in_handshake, wrapped, flushing, in_shutdown, Exc, illegal_switch, add_writer,
  remove_writer, Tls, Reply, ok, raised, and_then, ensure_writer, drop_writer, flushed,
  flush_outgoing_bio, put_records, maybe_pause, maybe_resume, emit_call,
}
use aiofastnet.Stream.Watermarks.{Watermarks, Call, maybe_pause_protocol, maybe_resume_protocol}

-- A later phase has a higher rank. A transport is unwrapped for good once its handshake has begun.
abbrev pub rank : Phase → ℕ
rank in_handshake = 0
rank wrapped = 1
rank flushing = 2
rank in_shutdown = 3
rank unwrapped = 4

-- What OpenSSL has taken and, on a transport that is not being finalized, what waits for it.
abbrev pub held_of : Bool → List ℕ → List (List ℕ) → List ℕ
held_of true taken backlog = taken
held_of false taken backlog = taken ++ flatten backlog

abbrev pub held : Tls → List ℕ
held s = held_of s.finalizing_close s.taken s.write_backlog

-- The wire and the outgoing BIO have all records, in order; no writer is registered once the close
-- is final, as it is when the socket is gone or its closing scheduled.
abbrev pub IsWired : Tls → Type 0
IsWired s =
    (s.kernel.wire ++ s.outgoing ≡ s.produced)
    × (s.finalizing_close ≡ true → s.write_ready_registered ≡ false)
    × (s.sock ≡ false → s.finalizing_close ≡ true)
    × (is_some s.finalize_scheduled ≡ true → s.finalizing_close ≡ true)

-- Between calls the size is that of the backlog, and nothing waits on a transport that is closed.
abbrev pub IsSound : Tls → Type 0
IsSound s =
    IsWired s
    × (s.finalizing_close ≡ false → s.write_backlog_size ≡ length (flatten s.write_backlog))
    × (s.finalizing_close ≡ true → s.write_backlog_size ≡ 0)

-- The part neither takes plaintext nor changes the phase.
abbrev pub Quiet : Tls → Tls → Type 0
Quiet s t =
    (t.phase ≡ s.phase)
    × (t.finalizing_close ≡ s.finalizing_close)
    × (t.sock ≡ s.sock)
    × (t.write_backlog ≡ s.write_backlog)
    × (t.write_backlog_size ≡ s.write_backlog_size)
    × (IsWired s → IsWired t)

abbrev pub Calm : Tls → Tls → Type 0
Calm s t = Quiet s t × (t.taken ≡ s.taken)

-- What a closed transport leaves behind is lost, and nothing else.
abbrev pub Carries : Tls → Tls → Type 0
Carries s t =
    (lost : List ℕ) × ((held t ++ lost ≡ held s) × (t.finalizing_close ≡ false → lost ≡ []))

abbrev pub Rises : Tls → Tls → Type 0
Rises s t = (rank s.phase ≤ rank t.phase) × (s.finalizing_close ≡ true → t.finalizing_close ≡ true)

-- What `_handle_error` mends. The exception is not the one of an illegal switch of phases.
abbrev pub Breaks : Tls → Tls → Exc → Type 0
Breaks s t e =
    Rises s t
    × (IsWired t × (t.finalizing_close ≡ true → t.write_backlog_size ≡ 0))
    × ((lost : List ℕ) × (t.taken ++ lost ≡ held s))
    × (e ≡ illegal_switch → ⊥)

-- A part that returns leaves the transport sound. One that raises leaves what `_handle_error` mends.
abbrev pub After : {A : Type 0} → Tls → Tls × Reply A → Type 0
After s (t, ok _) = Rises s t × IsSound t × Carries s t
After s (t, raised e) = Breaks s t e

abbrev pub Calms : {A : Type 0} → Tls → Tls × Reply A → Type 0
Calms s (t, ok _) = Calm s t
Calms s (t, raised e) = Calm s t × (e ≡ illegal_switch → ⊥)

pub Calm-refl : (s : Tls) → Calm s s
Calm-refl s = ((refl, refl, refl, refl, refl, λ h. h), refl)

pub Calm-trans : (s t u : Tls) → Calm s t → Calm t u → Calm s u
Calm-trans s t u c d = (
  (d.0.0 ∙ c.0.0, d.0.1 ∙ c.0.1, d.0.2 ∙ c.0.2, d.0.3 ∙ c.0.3, d.0.4 ∙ c.0.4, λ h. d.0.5 (c.0.5 h)),
  d.1 ∙ c.1,
)

pub Quiet-held :
    (s t : Tls) → Quiet s t → held t ≡ held_of s.finalizing_close t.taken s.write_backlog
Quiet-held s t q =
    ap (λ b. held_of b t.taken t.write_backlog) q.1 ∙ ap (held_of s.finalizing_close t.taken) q.3

pub Calm-held : (s t : Tls) → Calm s t → held t ≡ held s
Calm-held s t c = Quiet-held s t c.0 ∙ ap (λ d. held_of s.finalizing_close d s.write_backlog) c.1

pub Calm-IsSound : (s t : Tls) → Calm s t → IsSound s → IsSound t
Calm-IsSound s t c h = (
  c.0.5 h.0,
  (λ f. c.0.4 ∙ h.1 (sym c.0.1 ∙ f) ∙ ap (λ b. length (flatten b)) (sym c.0.3)),
  λ f. c.0.4 ∙ h.2 (sym c.0.1 ∙ f),
)

-- What is left of a list of which a part is held.
pub taken-held :
    (b : Bool) (d : List ℕ) (w : List (List ℕ)) → (lost : List ℕ) × (d ++ lost ≡ held_of b d w)
taken-held true d w = ([], append-nil d)
taken-held false d w = (flatten w, refl)

pub Calms-After : {A : Type 0} (s : Tls) (r : Tls × Reply A) → IsSound s → Calms s r → After s r
Calms-After s (t, ok a) h c = (
  (omega (arith, ap rank c.0.0), λ f. c.0.1 ∙ f),
  Calm-IsSound s t c h,
  ([], (append-nil (held t) ∙ Calm-held s t c, λ _. refl)),
)
Calms-After s (t, raised e) h c = (
  (omega (arith, ap rank c.0.0.0), λ f. c.0.0.1 ∙ f),
  ((Calm-IsSound s t c.0 h).0, (Calm-IsSound s t c.0 h).2),
  (
    (taken-held s.finalizing_close s.taken s.write_backlog).0,
    ap (λ d. d ++ (taken-held s.finalizing_close s.taken s.write_backlog).0) c.0.1
        ∙ (taken-held s.finalizing_close s.taken s.write_backlog).1,
  ),
  c.1,
)

-- A part that follows a calm one.
pub Calm-After : {A : Type 0} (s t : Tls) (r : Tls × Reply A) → Calm s t → After t r → After s r
Calm-After s t (u, ok a) c x = (
  (omega (arith, ap rank c.0.0, x.0.0), λ f. x.0.1 (c.0.1 ∙ f)),
  x.1,
  (x.2.0, (x.2.1.0 ∙ Calm-held s t c, x.2.1.1)),
)
Calm-After s t (u, raised e) c x = (
  (omega (arith, ap rank c.0.0, x.0.0), λ f. x.0.1 (c.0.1 ∙ f)),
  x.1,
  (x.2.0, x.2.1 ∙ Calm-held s t c),
  x.3,
)

pub Calms-and_then :
    {A B : Type 0} (s : Tls) (r : Tls × Reply A) (k : A → Tls → Tls × Reply B)
    → IsSound s
    → Calms s r
    → ((a : A) (t : Tls) → Calm s t → IsSound t → After t (k a t))
    → After s (and_then r k)
Calms-and_then s (t, ok a) k h c f = Calm-After s t (k a t) c (f a t c (Calm-IsSound s t c h))
Calms-and_then {A = A} s (t, raised e) k h c f = Calms-After {A = A} s (t, raised e) h c

pub Calms-Calms :
    {A B : Type 0} (s : Tls) (r : Tls × Reply A) (k : A → Tls → Tls × Reply B)
    → Calms s r
    → ((a : A) (t : Tls) → Calm s t → Calms s (k a t))
    → Calms s (and_then r k)
Calms-Calms s (t, ok a) k c f = f a t c
Calms-Calms s (t, raised e) k c f = c

-- Losses add up, and an open transport has none.
lose : (a l m b c : List ℕ) → a ++ l ≡ b → b ++ m ≡ c → a ++ (l ++ m) ≡ c
lose a l m b c e f = sym (append_assoc a l m) ∙ ap (λ t. t ++ m) e ∙ f

none_lost :
    (s t : Tls) (l m : List ℕ)
    → (s.finalizing_close ≡ true → t.finalizing_close ≡ true)
    → (s.finalizing_close ≡ false → m ≡ [])
    → (t.finalizing_close ≡ false → l ≡ [])
    → t.finalizing_close ≡ false
    → l ++ m ≡ []
none_lost s t l m up hm hl f = elim (Bool-cases s.finalizing_close) [
  | inl e ↦ absurd (ground (arith, up e))
  | inr e ↦ ap (λ x. x ++ m) (hl f) ∙ hm e
]

pub After-trans :
    {A : Type 0} (s t : Tls) (r : Tls × Reply A) → Rises s t → Carries s t → After t r → After s r
After-trans s t (u, ok a) up c y = (
  (omega (arith, up.0, y.0.0), λ f. y.0.1 (up.1 f)),
  y.1,
  (
    y.2.0 ++ c.0,
    (
      lose (held u) y.2.0 c.0 (held t) (held s) y.2.1.0 c.1.0,
      none_lost t u y.2.0 c.0 y.0.1 c.1.1 y.2.1.1,
    ),
  ),
)
After-trans s t (u, raised e) up c y = (
  (omega (arith, up.0, y.0.0), λ f. y.0.1 (up.1 f)),
  y.1,
  (y.2.0 ++ c.0, lose u.taken y.2.0 c.0 (held t) (held s) y.2.1 c.1.0),
  y.3,
)

pub After-and_then :
    {A B : Type 0} (s : Tls) (r : Tls × Reply A) (k : A → Tls → Tls × Reply B)
    → After s r
    → ((a : A) (t : Tls) → Rises s t → IsSound t → After t (k a t))
    → After s (and_then r k)
After-and_then s (t, ok a) k x f = After-trans s t (k a t) x.0 x.2 (f a t x.0 x.1)
After-and_then s (t, raised e) k x f = x

ensure_writer-Calm : (s : Tls) → Calm s (ensure_writer s)
unfolding ensure_writer
ensure_writer-Calm s =
    if-cases (Calm s) (s.finalizing_close || s.write_ready_registered)
      (record s { write_had_eagain = true })
      (record s {
        write_had_eagain = true;
        write_ready_registered = true;
        trace = add_writer ∷ s.trace;
      })
      (λ e. ((refl, refl, refl, refl, refl, λ h. h), refl))
      (λ e.
        ((refl, refl, refl, refl, refl, λ h. (h.0, (λ f. absurd (ground arith)), h.2, h.3)), refl))

-- Records move from the BIO to the wire.
moved-Calm :
    (s : Tls) (n : ℕ) (k : Kernel)
    → k.wire ≡ s.kernel.wire ++ take n s.outgoing
    → Calm s (record s { kernel = k; outgoing = drop n s.outgoing })
moved-Calm s n k e = (
  (
    refl,
    refl,
    refl,
    refl,
    refl,
    λ h. (
      ap (λ w. w ++ drop n s.outgoing) e
          ∙ append_assoc s.kernel.wire (take n s.outgoing) (drop n s.outgoing)
          ∙ ap (λ t. s.kernel.wire ++ t) (take-append-drop n s.outgoing)
          ∙ h.0,
      h.1,
      h.2,
      h.3,
    ),
  ),
  refl,
)

stayed-Calm : (s : Tls) (k : Kernel) → k.wire ≡ s.kernel.wire → Calm s (record s { kernel = k })
stayed-Calm s k e =
    ((refl, refl, refl, refl, refl, λ h. (ap (λ w. w ++ s.outgoing) e ∙ h.0, h.1, h.2, h.3)), refl)

flushed-Calms :
    (s : Tls) (r : Kernel × Sent) → Writes s.outgoing s.kernel.wire r → Calms s (flushed s r)
unfolding flushed
flushed-Calms s (k, sent n) w =
    if-cases (Calms s) (ltb n (length s.outgoing)) (ensure_writer sent_on, ok false)
      (sent_on, ok true)
      (λ e.
        Calm-trans s sent_on (ensure_writer sent_on) (moved-Calm s n k w.0)
          (ensure_writer-Calm sent_on))
      (λ e. moved-Calm s n k w.0)
  where
    sent_on : Tls
    sent_on = record s { kernel = k; outgoing = drop n s.outgoing }
flushed-Calms s (k, again) w =
    Calm-trans s (record s { kernel = k }) (ensure_writer (record s { kernel = k }))
      (stayed-Calm s k w) (ensure_writer-Calm (record s { kernel = k }))
flushed-Calms s (k, failed e) w = (stayed-Calm s k w, λ q. absurd (ground arith))

pub flush_outgoing_bio-Calms : (s : Tls) → Calms s (flush_outgoing_bio s)
unfolding flush_outgoing_bio
flush_outgoing_bio-Calms s =
    if-cases (Calms s) s.write_had_eagain (s, ok false)
      (if is_empty s.outgoing then (s, ok true) else flushed s (aiofn_write s.outgoing s.kernel))
      (λ _. Calm-refl s)
      (λ _.
        if-cases (Calms s) (is_empty s.outgoing) (s, ok true)
          (flushed s (aiofn_write s.outgoing s.kernel)) (λ _. Calm-refl s)
          (λ _.
            flushed-Calms s (aiofn_write s.outgoing s.kernel)
              (aiofn_write-Writes s.outgoing s.kernel)))

pub put_records-Calm : (c : List ℕ) (s : Tls) → Calm s (put_records c s)
put_records-Calm c s = (
  (
    refl,
    refl,
    refl,
    refl,
    refl,
    λ h. (sym (append_assoc s.kernel.wire s.outgoing c) ∙ ap (λ t. t ++ c) h.0, h.1, h.2, h.3),
  ),
  refl,
)

emit_call-Calm : (c : Option Call) (s : Tls) → Calm s (emit_call c s)
emit_call-Calm none s = Calm-refl s
emit_call-Calm (some c) s = ((refl, refl, refl, refl, refl, λ h. h), refl)

pub maybe_pause-Calm : (s : Tls) → Calm s (maybe_pause s)
unfolding maybe_pause
maybe_pause-Calm s =
    let w : Watermarks × Option Call = maybe_pause_protocol s.watermarks s.write_backlog_size in
    let c : Calm (record s { watermarks = w.0 }) (emit_call w.1 (record s { watermarks = w.0 })) =
      emit_call-Calm w.1 (record s { watermarks = w.0 }) in
    ((c.0.0, c.0.1, c.0.2, c.0.3, c.0.4, λ h. c.0.5 h), c.1)

pub maybe_resume-Calm : (s : Tls) → Calm s (maybe_resume s)
unfolding maybe_resume
maybe_resume-Calm s =
    let w : Watermarks × Option Call = maybe_resume_protocol s.watermarks s.write_backlog_size in
    let c : Calm (record s { watermarks = w.0 }) (emit_call w.1 (record s { watermarks = w.0 })) =
      emit_call-Calm w.1 (record s { watermarks = w.0 }) in
    ((c.0.0, c.0.1, c.0.2, c.0.3, c.0.4, λ h. c.0.5 h), c.1)

pub drop_writer-Calm : (s : Tls) → Calm s (drop_writer s)
unfolding drop_writer
drop_writer-Calm s =
    if-cases (Calm s) s.sock
      (if s.write_ready_registered
        then record s { write_ready_registered = false; trace = remove_writer ∷ s.trace }
        else s)
      s
      (λ _.
        if-cases (Calm s) s.write_ready_registered
          (record s { write_ready_registered = false; trace = remove_writer ∷ s.trace }) s
          (λ _. ((refl, refl, refl, refl, refl, λ h. (h.0, (λ _. refl), h.2, h.3)), refl))
          (λ _. Calm-refl s))
      (λ _. Calm-refl s)

pub drop_writer-gone : (s : Tls) → s.sock ≡ true → (drop_writer s).write_ready_registered ≡ false
unfolding drop_writer
drop_writer-gone s e =
    if-cases (λ t. t.write_ready_registered ≡ false) s.sock
      (if s.write_ready_registered
        then record s { write_ready_registered = false; trace = remove_writer ∷ s.trace }
        else s)
      s
      (λ _.
        if-cases (λ t. t.write_ready_registered ≡ false) s.write_ready_registered
          (record s { write_ready_registered = false; trace = remove_writer ∷ s.trace }) s
          (λ _. refl) (λ f. f))
      (λ f. absurd (ground arith))

pub same-After : (s : Tls) → IsSound s → After {A = Unit {0}} s (s, ok tt)
same-After s h = Calms-After s (s, ok tt) h (Calm-refl s)

-- The phase that a part returns in.
abbrev pub Lands : {A : Type 0} → Phase → Tls × Reply A → Type 0
Lands q (t, ok _) = t.phase ≡ q
Lands q (t, raised e) = Unit

pub Calms-Lands :
    {A : Type 0} (q : Phase) (s : Tls) (r : Tls × Reply A) → s.phase ≡ q → Calms s r → Lands q r
Calms-Lands q s (t, ok a) e c = c.0.0 ∙ e
Calms-Lands q s (t, raised x) e c = tt

pub After-lands :
    {A B : Type 0} (q : Phase) (s : Tls) (r : Tls × Reply A) (k : A → Tls → Tls × Reply B)
    → After s r
    → Lands q r
    → ((a : A) (t : Tls) → t.phase ≡ q → IsSound t → After t (k a t))
    → After s (and_then r k)
After-lands q s (t, ok a) k x e f = After-trans s t (k a t) x.0 x.2 (f a t e x.1)
After-lands q s (t, raised e) k x l f = x
