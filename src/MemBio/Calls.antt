-- ===== src/MemBio/Calls.antt =====
-- Each call of a memory BIO is a call of the queue (aiofastnet/static_mem_bio.c).
use aiofastnet.Base.{
  ℕ, ◌+◌, ◌-◌, ◌≤◌, ◌<◌, min, ◌≡◌, refl, sym, ap, ◌∙◌, subst, true, false, List, [], ◌∷◌, ◌++◌,
  append-nil, take, drop, length, is_empty, length-take, drop_all, nil_of_length, ltb, ◌==◌,
  if◌then◌else◌, if-cases, Bool-cases, inl, inr, arith,
}
use aiofastnet.MemBio.{
  ℤ, pos, negsuc, no_retry, retry_read, retry_write, int_max, Memory, returns, avail, space,
  overwrite, unread, to_int, advance, read_some, write_some, Command, ctrl_reset, ctrl_eof,
  ctrl_pending, ctrl_wpending, ctrl_flush, file_seek, file_tell, dup, other, info,
  set_buf_mem_eof_return, set_nbio, control, compact, counted, produce_some, write_call, read_call,
  receive, send, control_call, receive_at, receive_some, send_some,
}
use aiofastnet.MemBio.Invariant.{IsOrdered, pending, length-pending, length-overwrite}
use aiofastnet.MemBio.Moves.{
  queue, view, Tracks, Follows, advance-IsOrdered, take-pending, drop-min-pending,
  length-take-pending, to_int_small, stored-IsOrdered, emptied, compact-IsOrdered, produce_some_lem,
  consume_some_lem,
}

pub read_some-Follows :
    (size n : ℕ) (m : Memory)
    → size ≤ int_max
    → 0 < n
    → IsOrdered size m
    → Follows size (read_call n) m (read_some n m)
unfolding read_some avail unread
read_some-Follows size n m small h o =
    if-cases (Follows size (read_call n) m) (m.wptr - m.rptr == 0)
      (record m { retry = retry_read }, returns m.eof_return)
      (
        advance k (record m { retry = no_retry }),
        record { bytes = take k (drop m.rptr m.buffer); result = to_int k },
      )
      (λ e. (
        o,
        (
          sym (nil_of_length (take n (pending m)) (ground (arith, length-take-pending n m fits))),
          (λ _ _. refl),
          λ p. absurd (ground (arith, length-pending m fits)),
        ),
        ap (λ t. queue t m.eof_return)
            (nil_of_length (pending m) (ground (arith, length-pending m fits))
              ∙ sym (drop_all n (pending m) (ground (arith, length-pending m fits)))),
      ))
      (λ e. (
        moved.0,
        (
          take-pending n m,
          (λ _ z. absurd (ground (arith, length-pending m fits))),
          λ _. to_int_small k (omega arith) ∙ ap pos (sym (length-take-pending n m fits)),
        ),
        moved.1 ∙ ap (λ t. queue t m.eof_return) (drop-min-pending n m fits),
      ))
  where
    k : ℕ
    k = min (m.wptr - m.rptr) n

    fits : m.wptr ≤ length m.buffer
    fits = omega arith

    moved :
        IsOrdered size (advance k (record m { retry = no_retry }))
        × (view (advance k (record m { retry = no_retry }))
            ≡ queue (drop k (pending m)) m.eof_return)
    moved = advance-IsOrdered size k (record m { retry = no_retry }) o (omega arith)

pub write_some-Follows :
    (size : ℕ) (d : List ℕ) (m : Memory)
    → size ≤ int_max
    → IsOrdered size m
    → Follows size (write_call d) m (write_some d m)
unfolding write_some space
write_some-Follows size d m small h =
    if-cases (Follows size (write_call d) m) (length m.buffer - m.wptr == 0)
      (record m { retry = retry_write }, returns (negsuc 0)) (kept, returns (to_int n))
      (λ e. (
        h,
        ((omega arith, omega (arith, len), λ z. ground (arith, emptied size m h z)), λ _ _. refl),
        ap (λ t. queue t m.eof_return) (sym (append-nil (pending m))),
      ))
      (λ e.
        subst (λ t. Follows size (write_call d) m (kept, returns t))
          (sym (to_int_small n (omega arith)))
          (
            stored.0,
            (
              (omega arith, ground (arith, len), λ z. ground (arith, emptied size m h z)),
              λ p z. absurd (ground arith),
            ),
            stored.1,
          ))
  where
    len : length (pending m) ≡ m.wptr - m.rptr
    len = length-pending m (omega arith)

    n : ℕ
    n = min (length m.buffer - m.wptr) (length d)

    kept : Memory
    kept = record m {
      buffer = overwrite m.wptr (take n d) m.buffer;
      wptr = m.wptr + n;
      retry = if ltb n (length d) then retry_write else no_retry;
    }

    stored : IsOrdered size kept × (view kept ≡ queue (pending m ++ take n d) m.eof_return)
    stored =
        stored-IsOrdered size n (take n d) m (if ltb n (length d) then retry_write else no_retry) h
          (omega (arith, length-take n d)) (omega arith)

pub receive_at-Follows :
    (size : ℕ) (d : List ℕ) (m : Memory)
    → IsOrdered size m
    → (m.wptr ≡ size → m.rptr ≡ 0)
    → Follows size (receive d) m (receive_at d m)
unfolding receive_at space counted
receive_at-Follows size d m h f =
    if-cases (Follows size (receive d) m) (length m.buffer - m.wptr == 0) (m, returns (negsuc 0))
      (p.0, returns (counted n p.1))
      (λ e. (
        h,
        (
          (omega arith, omega (arith, len), λ z. ground (arith, emptied size m h z)),
          λ _ _. ground (arith, len, f (ground arith)),
        ),
        ap (λ t. queue t m.eof_return) (sym (append-nil (pending m))),
      ))
      (λ e.
        subst (λ t. Follows size (receive d) m (t.0, returns (counted n t.1)))
          (sym (produce_some_lem n at (omega (arith, room))))
          (
            stored.0,
            (
              (omega arith, omega (arith, len), λ z. omega (arith, emptied size m h z)),
              λ z q. absurd (ground arith),
            ),
            stored.1,
          ))
  where
    len : length (pending m) ≡ m.wptr - m.rptr
    len = length-pending m (omega arith)

    n : ℕ
    n = min (length m.buffer - m.wptr) (length d)

    at : Memory
    at = record m { buffer = overwrite m.wptr (take n d) m.buffer }

    room : length at.buffer ≡ length m.buffer
    room = length-overwrite m.wptr (take n d) m.buffer (omega (arith, length-take n d))

    p : Memory × ℤ
    p = produce_some n at

    stored :
        let s : Memory = record at { wptr = m.wptr + n } in
        IsOrdered size s × (view s ≡ queue (pending m ++ take n d) m.eof_return)
    stored =
        stored-IsOrdered size n (take n d) m m.retry h (omega (arith, length-take n d))
          (omega arith)

pub receive_some-Follows :
    (size : ℕ) (d : List ℕ) (m : Memory)
    → IsOrdered size m
    → Follows size (receive d) m (receive_some d m)
unfolding receive_some
receive_some-Follows size d m h =
    let c = compact-IsOrdered size m h in
    subst (λ q. Tracks size (receive d) q (receive_at d (compact m))) c.1
      (receive_at-Follows size d (compact m) c.0 c.2)

pub send_some-Follows :
    (size k : ℕ) (m : Memory) → IsOrdered size m → Follows size (send k) m (send_some k m)
unfolding send_some avail unread counted
send_some-Follows size k m h =
    subst
      (λ t.
        Follows size (send k) m
          (t.0, record { bytes = take n (drop m.rptr m.buffer); result = counted n t.1 }))
      (sym (consume_some_lem n m (omega arith)))
      (
        moved.0,
        (take-pending k m, ap pos (sym (length-take-pending k m fits))),
        moved.1 ∙ ap (λ t. queue t m.eof_return) (drop-min-pending k m fits),
      )
  where
    fits : m.wptr ≤ length m.buffer
    fits = omega arith

    n : ℕ
    n = min (m.wptr - m.rptr) k

    moved :
        IsOrdered size (advance n m)
        × (view (advance n m) ≡ queue (drop n (pending m)) m.eof_return)
    moved = advance-IsOrdered size n m h (omega arith)

eof-pending :
    (m : Memory)
    → m.rptr ≤ m.wptr
    → m.wptr ≤ length m.buffer
    → (m.wptr == m.rptr) ≡ is_empty (pending m)
eof-pending m h f = elim (Bool-cases (m.wptr == m.rptr)) [
  | inl e ↦ e ∙ ap is_empty (sym (nil_of_length (pending m) (ground (arith, length-pending m f))))
  | inr e ↦ e ∙ filled (pending m) (ground (arith, length-pending m f))
]
  where
    filled : (xs : List ℕ) → 0 < length xs → false ≡ is_empty xs
    filled [] k = absurd (omega arith)
    filled (x ∷ xs) k = refl

pub control-Follows :
    (size : ℕ) (c : Command) (m : Memory)
    → IsOrdered size m
    → Follows size (control_call c) m (control c m)
unfolding control avail unread
control-Follows size ctrl_reset m h = ((h.0, omega arith, omega arith, λ _. refl), refl, refl)
control-Follows size ctrl_eof m h = (
  h,
  ap (λ b. returns (pos (if b then 1 else 0))) (eof-pending m (omega arith) (omega arith)),
  refl,
)
control-Follows size (info true) m h = (
  h,
  ap (λ n. record { bytes = pending m; result = pos n }) (sym (length-pending m (omega arith))),
  refl,
)
control-Follows size (info false) m h =
    (h, ap (λ n. returns (pos n)) (sym (length-pending m (omega arith))), refl)
control-Follows size ctrl_pending m h =
    (h, ap (λ n. returns (pos n)) (sym (length-pending m (omega arith))), refl)
control-Follows size ctrl_wpending m h = (h, refl, refl)
control-Follows size ctrl_flush m h = (h, refl, refl)
control-Follows size file_seek m h = (h, refl, refl)
control-Follows size file_tell m h = (h, refl, refl)
control-Follows size dup m h = (h, refl, refl)
control-Follows size other m h = (h, refl, refl)
control-Follows size (set_buf_mem_eof_return n) m h = (h, refl, refl)
control-Follows size (set_nbio n) m h = (h, refl, refl)
