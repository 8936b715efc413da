-- ===== src/MemBio/Invariant.antt =====
-- The pointers of a memory BIO stay in order, and an empty one starts afresh
-- (aiofastnet/static_mem_bio.c).
use aiofastnet.Base.{
  ℕ, ◌+◌, ◌-◌, ◌≤◌, ◌≡◌, sym, ap, ◌∙◌, List, ◌++◌, take, drop, length, length-append, length-take,
  length-drop, take_all, take-append_left, drop-append_left, drop-take, drop-drop, take-length_add,
  arith,
}
use aiofastnet.MemBio.{Memory, overwrite}

-- The read pointer is not past the write pointer, nor that past the end, and both stand at the
-- start when nothing is unread.
abbrev pub IsOrdered : ℕ → Memory → Type 0
IsOrdered size m =
    (length m.buffer ≡ size) × (m.rptr ≤ m.wptr) × (m.wptr ≤ size) × (m.rptr ≡ m.wptr → m.rptr ≡ 0)

-- The bytes that wait.
abbrev pub pending : Memory → List ℕ
pending m = take (m.wptr - m.rptr) (drop m.rptr m.buffer)

pub length-pending : (m : Memory) → m.wptr ≤ length m.buffer → length (pending m) ≡ m.wptr - m.rptr
length-pending m h =
    omega (arith, length-take (m.wptr - m.rptr) (drop m.rptr m.buffer), length-drop m.rptr m.buffer)

pub length-overwrite :
    (w : ℕ) (xs buffer : List ℕ)
    → w + length xs ≤ length buffer
    → length (overwrite w xs buffer) ≡ length buffer
unfolding overwrite
length-overwrite w xs buffer h = omega (
  arith,
  length-append (take w buffer) (xs ++ drop (w + length xs) buffer),
  length-append xs (drop (w + length xs) buffer),
  length-take w buffer,
  length-drop (w + length xs) buffer,
)

-- What is written at the write pointer follows what is unread.
pub take-drop-overwrite :
    (r w : ℕ) (xs buffer : List ℕ)
    → r ≤ w
    → w + length xs ≤ length buffer
    → take (w + length xs - r) (drop r (overwrite w xs buffer)) ≡ take (w - r) (drop r buffer) ++ xs
unfolding overwrite
take-drop-overwrite r w xs buffer hr hw =
    ap (take (w + length xs - r)) (drop-append_left r (take w buffer) rest fits)
    ∙ ap (λ p. take (w + length xs - r) (p ++ rest)) (drop-take r w buffer hr)
    ∙ ap (λ n. take n (kept ++ rest)) counts
    ∙ take-length_add kept rest (length xs)
    ∙ ap (λ t. kept ++ t) (take-append_left (length xs) xs after (omega arith))
    ∙ ap (λ t. kept ++ t) (take_all (length xs) xs (omega arith))
  where
    after : List ℕ
    after = drop (w + length xs) buffer

    rest : List ℕ
    rest = xs ++ after

    kept : List ℕ
    kept = take (w - r) (drop r buffer)

    fits : r ≤ length (take w buffer)
    fits = omega (arith, length-take w buffer)

    counts : w + length xs - r ≡ length kept + length xs
    counts = omega (arith, length-take (w - r) (drop r buffer), length-drop r buffer)

-- Moving the read pointer drops what it passes.
pub drop-pending :
    (n r w : ℕ) (buffer : List ℕ)
    → r + n ≤ w
    → take (w - (r + n)) (drop (r + n) buffer) ≡ drop n (take (w - r) (drop r buffer))
drop-pending n r w buffer h =
    ap (λ k. take k (drop (r + n) buffer)) counts
    ∙ ap (take (w - r - n)) (sym (drop-drop r n buffer))
    ∙ sym (drop-take n (w - r) (drop r buffer) (omega arith))
  where
    counts : w - (r + n) ≡ w - r - n
    counts = omega arith
