-- ===== src/Stream/Lines/Groups.antt =====
-- Sending in groups is sending the whole (aiofastnet/transport.pyx, `_try_writelines`).
use aiofastnet.Base.{
  ℕ, ◌+◌, ◌-◌, ◌≤◌, ◌<◌, ◌≡◌, refl, ap, sym, ◌∙◌, inl, inr, true, false, List, [], ◌∷◌, ◌++◌, take,
  length, All, arith, append-nil, append_assoc, length-append, take-append_left, take-length_add,
  take_all, ltb, ◌==◌, Bool-cases,
}
use aiofastnet.Stream.Kernel.{aiofn_write, Kernel, Sent, sent, again, failed, aiofn_writev, flatten}
use aiofastnet.Stream.Kernel.Wire.{Writes, aiofn_write-Writes, flatten-snoc}
use aiofastnet.Stream.Lines.{
  max_iovec, Flushed, flushed, broke, next_group, flush_lines, try_writelines,
}

abbrev pub NonEmpty : List ℕ → Type 0
NonEmpty d = 0 < length d

-- Of `whole` a front of n bytes went out, n was added to the count, and `all_sent` tells whether
-- that was everything; what was raised leaves a front on the wire too.
abbrev pub Sends : List ℕ → List ℕ → ℕ → Kernel × Flushed → Type 0
Sends whole wire total (k, flushed all_sent t) =
    (n : ℕ) × (t ≡ total + n)
    × (k.wire ≡ wire ++ take n whole)
    × (n ≤ length whole)
    × (all_sent ≡ (n == length whole))
Sends whole wire total (k, broke e) = (n : ℕ) × (k.wire ≡ wire ++ take n whole)

-- A group that went out whole, and then the others.
Sends-after :
    (d more wire : List ℕ) (total : ℕ) (k : Kernel) (r : Kernel × Flushed)
    → k.wire ≡ wire ++ d
    → Sends more k.wire (total + length d) r
    → Sends (d ++ more) wire total r
Sends-after d more wire total k (k', flushed a t) e (n, et, ew, le, ea) = (
  length d + n,
  omega arith,
  rw (ew, e, take-length_add d more n) (append_assoc wire d (take n more)),
  omega (arith, length-append d more),
  ground (arith, length-append d more),
)
Sends-after d more wire total k (k', broke x) e (n, ew) =
    (length d + n, rw (ew, e, take-length_add d more n) (append_assoc wire d (take n more)))

-- One group, then the others if it went out whole.
next_group-Sends :
    (d more wire : List ℕ) (to_send total : ℕ) (rest : ℕ → Kernel → Kernel × Flushed)
    (r : Kernel × Sent)
    → to_send ≡ length d
    → 0 < length d
    → ((t : ℕ) (k : Kernel) → Sends more k.wire t (rest t k))
    → Writes d wire r
    → Sends (d ++ more) wire total (next_group rest to_send total r)
next_group-Sends d more wire to_send total rest (k, failed e) es pos others w =
    (0, rw w (sym (append-nil wire)))
next_group-Sends d more wire to_send total rest (k, again) es pos others w = (
  0,
  omega arith,
  rw w (sym (append-nil wire)),
  omega arith,
  ground (arith, length-append d more),
)
next_group-Sends d more wire to_send total rest (k, sent n) es pos others (ew, lo, hi) =
    elim (Bool-cases (n == to_send)) [
      | inl whole ↦
          let en : n ≡ length d = ground arith in
          rw (whole, en)
            (Sends-after d more wire total k (rest (total + length d) k)
              (ew ∙ ap (λ t. wire ++ t) (take_all n d (omega arith))) (others (total + length d) k))
      | inr part ↦ rw part (
        n,
        refl,
        rw (ew, take-append_left n d more hi),
        omega (arith, length-append d more),
        ground (arith, length-append d more),
      )
    ]

done-Sends : (t : ℕ) (k : Kernel) → Sends [] k.wire t (k, flushed true t)
done-Sends t k = (0, omega arith, sym (append-nil k.wire), omega arith, refl)

-- The last group, if one is gathered.
last_group-Sends :
    (buffers : List (List ℕ)) (index to_send total : ℕ) (k : Kernel)
    → to_send ≡ length (flatten buffers)
    → (index == 0 ≡ true → buffers ≡ [])
    → index ≤ to_send
    → Sends (flatten buffers ++ []) k.wire total (flush_lines [] buffers index to_send total k)
unfolding flush_lines flatten aiofn_writev
last_group-Sends buffers index to_send total k es none_yet le = elim (Bool-cases (index == 0)) [
  | inl zero_index ↦ rw (zero_index, none_yet zero_index) (done-Sends total k)
  | inr some_index ↦ rw some_index (
      next_group-Sends (flatten buffers) [] k.wire to_send total (λ t k'. (k', flushed true t))
        (aiofn_write (flatten buffers) k) es (ground arith) done-Sends
        (aiofn_write-Writes (flatten buffers) k))
]

-- One buffer more is gathered while there is room, and the group goes out when there is none.
module _ (d : List ℕ) (ds buffers : List (List ℕ)) (index to_send total : ℕ) (k : Kernel) where
  flush_lines-room :
      ltb index (max_iovec - 1) ≡ true
      → flush_lines (d ∷ ds) buffers index to_send total k
        ≡ flush_lines ds (buffers ++ d ∷ []) (index + 1) (to_send + length d) total k
  unfolding flush_lines
  flush_lines-room h = ground arith

  flush_lines-full :
      ltb index (max_iovec - 1) ≡ false
      → flush_lines (d ∷ ds) buffers index to_send total k
        ≡ next_group
            (λ t k'. flush_lines ds [] 0 0 t k')
            (to_send + length d)
            total
            (aiofn_writev (buffers ++ d ∷ []) k)
  unfolding flush_lines
  flush_lines-full h = ground arith

flush_lines-Sends :
    (ds buffers : List (List ℕ)) (index to_send total : ℕ) (k : Kernel)
    → All NonEmpty ds
    → to_send ≡ length (flatten buffers)
    → (index == 0 ≡ true → buffers ≡ [])
    → index ≤ to_send
    → Sends
        (flatten buffers ++ flatten ds)
        k.wire
        total
        (flush_lines ds buffers index to_send total k)
unfolding flatten aiofn_writev
flush_lines-Sends [] buffers index to_send total k full es none_yet le =
    last_group-Sends buffers index to_send total k es none_yet le
flush_lines-Sends (d ∷ ds) buffers index to_send total k (pos, full) es none_yet le =
    let joined : length (flatten (buffers ++ d ∷ [])) ≡ to_send + length d =
      ap length (flatten-snoc buffers d) ∙ omega (arith, length-append (flatten buffers) d) in
    let split : flatten (buffers ++ d ∷ []) ++ flatten ds ≡ flatten buffers ++ (d ++ flatten ds) =
      ap (λ t. t ++ flatten ds) (flatten-snoc buffers d)
      ∙ append_assoc (flatten buffers) d (flatten ds) in
    elim (Bool-cases (ltb index (max_iovec - 1))) [
      | inl room ↦ rw (← split) (
          rw (flush_lines-room d ds buffers index to_send total k room) (
            flush_lines-Sends ds (buffers ++ d ∷ []) (index + 1) (to_send + length d) total k full
              (sym joined) (λ e. absurd (ground arith)) (omega arith)))
      | inr flush ↦ rw (← split) (
          rw (flush_lines-full d ds buffers index to_send total k flush, aiofn_writev)
            (next_group-Sends (flatten (buffers ++ d ∷ [])) (flatten ds) k.wire (to_send + length d)
              total (λ t k'. flush_lines ds [] 0 0 t k')
              (aiofn_write (flatten (buffers ++ d ∷ [])) k) (sym joined) (omega arith)
              (λ t k'. flush_lines-Sends ds [] 0 0 t k' full refl (λ _. refl) (omega arith))
              (aiofn_write-Writes (flatten (buffers ++ d ∷ [])) k)))
    ]

-- Whatever the grouping and the answers, a gathered write of non-empty buffers puts a front of
-- their concatenation on the wire, counts it, and reports whether it was everything.
pub try_writelines-Sends :
    (ds : List (List ℕ)) (k : Kernel)
    → All NonEmpty ds
    → Sends (flatten ds) k.wire 0 (try_writelines ds k)
unfolding try_writelines
try_writelines-Sends ds k full =
    unfold flatten in flush_lines-Sends ds [] 0 0 0 k full refl (λ _. refl) (omega arith)
