-- ===== src/Stream/Delivery/Consume.antt =====
-- Taking what was sent off the front of the backlog (aiofastnet/transport.pyx).
use aiofastnet.Base.{
  ℕ, ◌+◌, ◌-◌, ◌≤◌, ◌<◌, ◌≡◌, refl, sym, ap, ◌∙◌, inl, inr, Option, none, some, List, [], ◌∷◌, ◌++◌,
  length, drop, drop-append_left, drop-append_right, length-drop, length-append, All, arith,
  append_assoc, leb, ◌==◌, Bool-cases,
}
use aiofastnet.Stream.Kernel.{flatten}
use aiofastnet.Stream.State.{Request, write_request, sendfile_request}
use aiofastnet.Stream.Lines.{backlog_ranges}
use aiofastnet.Stream.Lines.Groups.{NonEmpty}
use aiofastnet.Stream.Drain.{consume}
use aiofastnet.Stream.Delivery.{pending, total, IsReady}

pub backlog_ranges-NonEmpty : (q : List Request) → All IsReady q → All NonEmpty (backlog_ranges q)
unfolding backlog_ranges
backlog_ranges-NonEmpty [] h = tt
backlog_ranges-NonEmpty (write_request d ∷ q) h = (h.0, backlog_ranges-NonEmpty q h.1)
backlog_ranges-NonEmpty (sendfile_request r ∷ q) h = tt

-- What is gathered is a front of what is pending.
pub backlog_ranges-front :
    (q : List Request) → (rest : List ℕ) × (pending q ≡ flatten (backlog_ranges q) ++ rest)
unfolding backlog_ranges flatten
backlog_ranges-front [] = ([], refl)
backlog_ranges-front (write_request d ∷ q) =
    let (rest, e) = backlog_ranges-front q in
    (rest, ap (λ t. d ++ t) e ∙ sym (append_assoc d (flatten (backlog_ranges q)) rest))
backlog_ranges-front (sendfile_request r ∷ q) = (pending (sendfile_request r ∷ q), refl)

abbrev gathered : List Request → ℕ
gathered q = length (flatten (backlog_ranges q))

-- The backlog that is left holds exactly the other bytes, and is shorter if all that was gathered
-- is gone.
abbrev pub Consumes : List Request → ℕ → Option (List Request) → Type 0
Consumes q n none = ⊥
Consumes q n (some q') =
    (pending q' ≡ drop n (pending q))
    × (total q' + n ≡ total q)
    × All IsReady q'
    × (length q' ≤ length q)
    × (0 < n → n ≡ gathered q → length q' < length q)

Consumes-cons :
    (d : List ℕ) (q : List Request) (n : ℕ) (o : Option (List Request))
    → length d ≤ n
    → Consumes q (n - length d) o
    → Consumes (write_request d ∷ q) n o
Consumes-cons d q n none le h = h
Consumes-cons d q n (some q') le (e, t, ready, short, less) = (
  e ∙ sym (drop-append_right n d (pending q) le),
  omega arith,
  ready,
  omega arith,
  λ _ _. omega arith,
)

-- Taking n bytes off a backlog of ready requests, no more than were gathered from its front, succeeds
-- and leaves exactly the pending bytes from n on, counted right, in ready requests; there are no more
-- requests than before, and fewer if everything gathered is gone.
pub consume-Consumes :
    (q : List Request) (n : ℕ) → All IsReady q → n ≤ gathered q → Consumes q n (consume q n)
unfolding consume flatten backlog_ranges
consume-Consumes [] n h le =
    let nothing : n ≡ 0 = omega arith in
    rw nothing (refl, refl, tt, omega arith, λ p _. absurd (omega arith))
consume-Consumes (sendfile_request r ∷ q) n h le =
    let nothing : n ≡ 0 = omega arith in
    rw nothing (refl, omega arith, h, omega arith, λ p _. absurd (omega arith))
consume-Consumes (write_request d ∷ q) n h le = elim (Bool-cases (n == 0)) [
  | inl nothing ↦
      let zero_sent : n ≡ 0 = ground arith in
      rw (zero_sent, consume) (refl, omega arith, h, omega arith, λ p _. absurd (omega arith))
  | inr something ↦ elim (Bool-cases (leb (length d) n)) [
    | inl whole ↦
        rw (something, whole, consume)
          (Consumes-cons d q n (consume q (n - length d)) (ground arith) (
            consume-Consumes q (n - length d) h.1
              (omega (arith, length-append d (flatten (backlog_ranges q))))))
    | inr part ↦
        let lt : n < length d = ground arith in
        rw (something, part, consume)
          (
            sym (drop-append_left n d (pending q) (omega arith)),
            omega (arith, length-drop n d),
            (omega (arith, length-drop n d), h.1),
            omega arith,
            λ _ all. absurd (omega (arith, length-append d (flatten (backlog_ranges q)))),
          )
  ]
]
