-- ===== src/Stream/Kernel/Wire.antt =====
-- What a write does to the bytes that the system has taken (aiofastnet/utils.pyx).
use aiofastnet.Base.{
  ℕ, ◌≤◌, ◌<◌, ◌≡◌, refl, ap, ◌∙◌, List, [], ◌∷◌, ◌++◌, take, length, arith, append-nil,
  append_assoc,
}
use aiofastnet.Stream.Kernel.{
  Kernel, Answer, takes, would_block, interrupted, fails, Sent, sent, again, failed, write_script,
  aiofn_write, flatten,
}

-- The system took a non-empty front of the data, or nothing.
abbrev pub Writes : List ℕ → List ℕ → Kernel × Sent → Type 0
Writes d wire (k, sent n) = (k.wire ≡ wire ++ take n d) × (0 < n) × (n ≤ length d)
Writes d wire (k, again) = k.wire ≡ wire
Writes d wire (k, failed e) = k.wire ≡ wire

write_script-Writes :
    (d wire : List ℕ) (script : List Answer) → Writes d wire (write_script d wire script)
unfolding write_script
write_script-Writes d wire [] = refl
write_script-Writes d wire (takes n ∷ script) = ground arith
write_script-Writes d wire (would_block ∷ script) = refl
write_script-Writes d wire (interrupted ∷ script) = write_script-Writes d wire script
write_script-Writes d wire (fails e ∷ script) = refl

pub aiofn_write-Writes : (d : List ℕ) (k : Kernel) → Writes d k.wire (aiofn_write d k)
unfolding aiofn_write
aiofn_write-Writes d k = write_script-Writes d k.wire k.script

pub flatten-append : (xs ys : List (List ℕ)) → flatten (xs ++ ys) ≡ flatten xs ++ flatten ys
unfolding flatten
flatten-append [] ys = refl
flatten-append (x ∷ xs) ys = rw (flatten-append xs ys, append_assoc)

pub flatten-snoc : (xs : List (List ℕ)) (d : List ℕ) → flatten (xs ++ d ∷ []) ≡ flatten xs ++ d
unfolding flatten
flatten-snoc xs d = flatten-append xs (d ∷ []) ∙ ap (λ t. flatten xs ++ t) (append-nil d)
