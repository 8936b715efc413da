-- ===== src/Tls/Calls.antt =====
-- What the writes of a client do (aiofastnet/ssl_transport.pyx).
use aiofastnet.Base.{
  ℕ, ◌≡◌, refl, sym, ap, ◌∙◌, Bool, false, List, [], ◌∷◌, ◌++◌, length, length-append, append-nil,
  append_assoc, if-cases, arith,
}
use aiofastnet.Stream.Kernel.{flatten}
use aiofastnet.Stream.Kernel.Wire.{flatten-snoc}
use aiofastnet.Tls.{illegal_switch, Tls, Reply, ok, raised, maybe_pause}
use aiofastnet.Tls.Loops.{append_to_backlog}
use aiofastnet.Tls.Run.{append_raw}
use aiofastnet.Tls.Calm.{
  rank, held, held_of, IsWired, IsSound, Calm, After, Calm-IsSound, maybe_pause-Calm,
}

-- The transport as if the data had joined its backlog.
abbrev pub offered : List ℕ → Tls → Tls
offered d s = record s { write_backlog = s.write_backlog ++ d ∷ [] }

abbrev pub content : Tls → List ℕ
content s = s.taken ++ flatten s.write_backlog

-- The data are taken or wait behind what waited.
abbrev pub Puts : {A : Type 0} → List ℕ → Tls → Tls × Reply A → Type 0
Puts d s (t, ok _) =
    (t.phase ≡ s.phase) × (t.finalizing_close ≡ false) × IsSound t × (content t ≡ content s ++ d)
Puts d s (t, raised e) =
    (t.phase ≡ s.phase)
    × (t.finalizing_close ≡ false)
    × IsWired t
    × ((lost : List ℕ) × (t.taken ++ lost ≡ content s ++ d))
    × (e ≡ illegal_switch → ⊥)

pub held-offered :
    (d : List ℕ) (s : Tls) → s.finalizing_close ≡ false → content s ++ d ≡ held (offered d s)
held-offered d s f =
    append_assoc s.taken (flatten s.write_backlog) d
    ∙ ap (λ b. s.taken ++ b) (sym (flatten-snoc s.write_backlog d))
    ∙ ap (λ b. held_of b s.taken (s.write_backlog ++ d ∷ [])) (sym f)

pub held-open : (s : Tls) → s.finalizing_close ≡ false → held s ≡ content s
held-open s f = ap (λ b. held_of b s.taken s.write_backlog) f

pub Puts-After :
    {A : Type 0} (d : List ℕ) (s : Tls) (r : Tls × Reply A)
    → s.finalizing_close ≡ false
    → Puts d s r
    → After (offered d s) r
Puts-After d s (t, ok a) f p = (
  (omega (arith, ap rank p.0), λ x. absurd (ground arith)),
  p.2,
  ([], (append-nil (held t) ∙ held-open t p.1 ∙ p.3 ∙ held-offered d s f, λ _. refl)),
)
Puts-After d s (t, raised e) f p = (
  (omega (arith, ap rank p.0), λ x. absurd (ground arith)),
  (p.2, λ x. absurd (ground (arith, p.1))),
  (p.3.0, p.3.1 ∙ held-offered d s f),
  p.4,
)

-- Data join the backlog.
pub append_raw-Puts :
    (d : List ℕ) (s : Tls)
    → s.finalizing_close ≡ false
    → IsSound s
    → Puts d s (append_raw d s, ok tt)
unfolding append_raw
append_raw-Puts d s f h = (
  refl,
  f,
  (
    h.0,
    (λ _. omega (
      arith,
      h.1 f,
      ap (λ b. length b) (flatten-snoc s.write_backlog d),
      length-append (flatten s.write_backlog) d,
    )),
    λ x. absurd (ground arith),
  ),
  ap (λ b. s.taken ++ b) (flatten-snoc s.write_backlog d)
      ∙ sym (append_assoc s.taken (flatten s.write_backlog) d),
)

pub Puts-Calm :
    {A B : Type 0} (d : List ℕ) (s t u : Tls) (a : A) (b : B)
    → Puts d s (t, ok a)
    → Calm t u
    → Puts d s (u, ok b)
Puts-Calm d s t u a b p c = (
  c.0.0 ∙ p.0,
  c.0.1 ∙ p.1,
  Calm-IsSound t u c p.2,
  ap (λ x. x ++ flatten u.write_backlog) c.1 ∙ ap (λ w. t.taken ++ flatten w) c.0.3 ∙ p.3,
)

pub append_to_backlog-Puts :
    (d : List ℕ) (pause : Bool) (s : Tls)
    → s.finalizing_close ≡ false
    → IsSound s
    → Puts d s (append_to_backlog d pause s, ok tt)
unfolding append_to_backlog append_raw
append_to_backlog-Puts [] pause s f h = (refl, f, h, sym (append-nil (content s)))
append_to_backlog-Puts (x ∷ d) pause s f h =
    let t : Tls = append_raw (x ∷ d) s in
    let p : Puts (x ∷ d) s (t, ok tt) = append_raw-Puts (x ∷ d) s f h in
    if-cases (λ u. Puts (x ∷ d) s (u, ok tt)) pause (maybe_pause t) t
      (λ _. Puts-Calm (x ∷ d) s t (maybe_pause t) tt tt p (maybe_pause-Calm t)) (λ _. p)
