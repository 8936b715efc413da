-- ===== src/MemBio/Moves.antt =====
-- What each movement of the pointers of a memory BIO does to the bytes that wait
-- (aiofastnet/static_mem_bio.c).
use aiofastnet.Base.{
  ℕ, ◌+◌, ◌-◌, ◌≤◌, min, ◌≡◌, refl, sym, ap, ◌∙◌, not, ◌&&◌, List, ◌++◌, take-append_left, take,
  drop, length, length-take, take_all, drop_all, take-take, drop-min, ltb, ◌==◌, if-cases, arith,
}
use aiofastnet.MemBio.{
  ℤ, pos, negsuc, Retry, int_max, Memory, Reply, avail, space, overwrite, unread, to_int, advance,
  compact, produce_some, consume_some, Op,
}
use aiofastnet.MemBio.Queue.{Queue, after, Allowed}
use aiofastnet.MemBio.Invariant.{
  IsOrdered, pending, length-pending, length-overwrite, take-drop-overwrite, drop-pending,
}

abbrev pub queue : List ℕ → ℤ → Queue
queue d e = record { bytes = d; eof_return = e }

abbrev pub view : Memory → Queue
view m = queue (pending m) m.eof_return

-- A call keeps the pointers in order, returns what the queue allows, and leaves the queue after it.
abbrev pub Tracks : ℕ → Op → Queue → Memory × Reply → Type 0
Tracks size o q r = IsOrdered size r.0 × Allowed size o r.1 q × (view r.0 ≡ after o r.1 q)

abbrev pub Follows : ℕ → Op → Memory → Memory × Reply → Type 0
Follows size o m r = Tracks size o (view m) r

pub advance-IsOrdered :
    (size n : ℕ) (m : Memory)
    → IsOrdered size m
    → n ≤ m.wptr - m.rptr
    → IsOrdered size (advance n m) × (view (advance n m) ≡ queue (drop n (pending m)) m.eof_return)
unfolding advance
advance-IsOrdered size n m h k =
    if-cases (λ t. IsOrdered size t × (view t ≡ queue (drop n (pending m)) m.eof_return))
      (m.rptr + n == m.wptr) (record m { rptr = 0; wptr = 0 }) (record m { rptr = m.rptr + n })
      (λ e. (
        (h.0, omega arith, omega arith, λ _. refl),
        ap (λ t. queue t m.eof_return)
            (sym (drop_all n (pending m) (ground (arith, length-pending m (omega arith))))),
      ))
      (λ e. (
        (h.0, ground arith, h.2, λ q. absurd (ground arith)),
        ap (λ t. queue t m.eof_return) (drop-pending n m.rptr m.wptr m.buffer (omega arith)),
      ))

-- What a read of up to `n` bytes copies, and what it leaves.
pub take-pending :
    (n : ℕ) (m : Memory)
    → take (min (m.wptr - m.rptr) n) (drop m.rptr m.buffer) ≡ take n (pending m)
take-pending n m = sym (take-take n (m.wptr - m.rptr) (drop m.rptr m.buffer))

pub drop-min-pending :
    (n : ℕ) (m : Memory)
    → m.wptr ≤ length m.buffer
    → drop (min (m.wptr - m.rptr) n) (pending m) ≡ drop n (pending m)
drop-min-pending n m h =
    ap (λ k. drop (min k n) (pending m)) (sym (length-pending m h)) ∙ drop-min n (pending m)

pub length-take-pending :
    (n : ℕ) (m : Memory)
    → m.wptr ≤ length m.buffer
    → length (take n (pending m)) ≡ min (m.wptr - m.rptr) n
length-take-pending n m h = omega (arith, length-take n (pending m), length-pending m h)

pub to_int_small : (n : ℕ) → n ≤ int_max → to_int n ≡ pos n
unfolding to_int
to_int_small n h =
    if-cases (λ t. t ≡ pos n) (ltb int_max n) (pos int_max) (pos n) (λ e. absurd (ground arith))
      (λ _. refl)

-- Bytes stored at the write pointer join the queue.
pub stored-IsOrdered :
    (size n : ℕ) (xs : List ℕ) (m : Memory) (retry : Retry)
    → IsOrdered size m
    → length xs ≡ n
    → m.wptr + n ≤ size
    → let s : Memory = record m {
      buffer = overwrite m.wptr xs m.buffer;
      wptr = m.wptr + n;
      retry = retry;
    } in
      IsOrdered size s × (view s ≡ queue (pending m ++ xs) m.eof_return)
stored-IsOrdered size n xs m retry h l k = (
  (
    length-overwrite m.wptr xs m.buffer (omega arith) ∙ h.0,
    omega arith,
    omega arith,
    λ e. h.3 (omega arith) ∙ refl,
  ),
  ap (λ t. queue t m.eof_return)
      (ap (λ j. take (m.wptr + j - m.rptr) (drop m.rptr (overwrite m.wptr xs m.buffer))) (sym l)
        ∙ take-drop-overwrite m.rptr m.wptr xs m.buffer (omega arith) (omega arith)),
)

-- With nothing unread the write pointer is at the start.
pub emptied : (size : ℕ) (m : Memory) → IsOrdered size m → length (pending m) ≡ 0 → m.wptr ≡ 0
emptied size m h z =
    let len : length (pending m) ≡ m.wptr - m.rptr = length-pending m (omega arith) in
    omega (arith, h.3 (omega arith))

-- Moving what is unread to the front changes nothing that a client sees.
pub compact-IsOrdered :
    (size : ℕ) (m : Memory)
    → IsOrdered size m
    → IsOrdered size (compact m)
      × (view (compact m) ≡ view m)
      × ((compact m).wptr ≡ size → (compact m).rptr ≡ 0)
unfolding compact unread avail overwrite
compact-IsOrdered size m h =
    if-cases (λ t. IsOrdered size t × (view t ≡ view m) × (t.wptr ≡ size → t.rptr ≡ 0))
      (not (m.rptr == 0) && (m.wptr == length m.buffer))
      (record m { buffer = overwrite 0 (pending m) m.buffer; rptr = 0; wptr = m.wptr - m.rptr }) m
      (λ e. (
        (
          length-overwrite 0 (pending m) m.buffer (omega (arith, len)) ∙ h.0,
          omega arith,
          omega arith,
          λ _. refl,
        ),
        ap (λ t. queue t m.eof_return) front,
        λ _. refl,
      ))
      (λ e. (h, refl, λ w. ground arith))
  where
    len : length (pending m) ≡ m.wptr - m.rptr
    len = length-pending m (omega arith)

    rest : List ℕ
    rest = drop (0 + length (pending m)) m.buffer

    front : take (m.wptr - m.rptr - 0) (overwrite 0 (pending m) m.buffer) ≡ pending m
    front =
        take-append_left (m.wptr - m.rptr - 0) (pending m) rest (omega (arith, len))
        ∙ take_all (m.wptr - m.rptr - 0) (pending m) (omega (arith, len))

pub produce_some_lem :
    (n : ℕ) (m : Memory)
    → n ≤ length m.buffer - m.wptr
    → produce_some n m ≡ (record m { wptr = m.wptr + n }, pos 1)
unfolding produce_some space
produce_some_lem n m h =
    if-cases (λ t. t ≡ (record m { wptr = m.wptr + n }, pos 1)) (ltb (length m.buffer - m.wptr) n)
      (m, negsuc 0) (record m { wptr = m.wptr + n }, pos 1) (λ e. absurd (ground arith)) (λ _. refl)

pub consume_some_lem :
    (n : ℕ) (m : Memory) → n ≤ m.wptr - m.rptr → consume_some n m ≡ (advance n m, pos 1)
unfolding consume_some avail
consume_some_lem n m h =
    if-cases (λ t. t ≡ (advance n m, pos 1)) (ltb (m.wptr - m.rptr) n) (m, negsuc 0)
      (advance n m, pos 1) (λ e. absurd (ground arith)) (λ _. refl)
