-- ===== src/MemBio/Refine.antt =====
-- Every history of a memory BIO is one of a queue (aiofastnet/static_mem_bio.c).
use aiofastnet.Base.{
  ℕ, ◌-◌, ◌≤◌, ◌≡◌, refl, sym, ap, subst, true, false, Option, none, some, List, [], ◌∷◌, ◌++◌,
  append-nil, All, ◌==◌, take, drop, length, if-cases, arith,
}
use aiofastnet.MemBio.{
  pos, no_retry, int_max, Memory, Reply, returns, new, read_some, read, write_some, write, ctrl, Op,
  write_call, read_call, receive, send, control_call, step, run,
}
use aiofastnet.MemBio.Queue.{Queue, Serves, put_in, taken_out, is_reset, Serves-order}
use aiofastnet.MemBio.Invariant.{IsOrdered, pending, length-pending}
use aiofastnet.MemBio.Moves.{view, queue, Tracks}
use aiofastnet.MemBio.Calls.{
  read_some-Follows, write_some-Follows, receive_some-Follows, send_some-Follows, control-Follows,
}

-- The call was on a BIO that is there, and leaves it there.
abbrev pub Stays : ℕ → Op → Queue → Option Memory × Reply → Type 0
Stays size o q (none, r) = ⊥
Stays size o q (some m, r) = Tracks size o q (m, r)

step-Stays :
    (size : ℕ) (o : Op) (m : Memory)
    → size ≤ int_max
    → IsOrdered size m
    → Stays size o (view m) (step o (some m))
unfolding step read write ctrl
step-Stays size (write_call d) m small h =
    if-cases (Stays size (write_call d) (view m)) (length d == 0) (some m, returns (pos 0))
      (some (write_some d m).0, (write_some d m).1)
      (λ e. (
        h,
        ((omega arith, omega (arith, waiting), λ z. ground arith), λ p. absurd (ground arith)),
        ap (λ t. queue t m.eof_return) (sym (append-nil (pending m))),
      ))
      (λ e. write_some-Follows size d m small h)
  where
    waiting : length (pending m) ≡ m.wptr - m.rptr
    waiting = length-pending m (omega arith)
step-Stays size (read_call n) m small h =
    if-cases (Stays size (read_call n) (view m)) (n == 0) (some m, returns (pos 0))
      (some (read_some n m).0, (read_some n m).1)
      (λ e. (
        h,
        (
          ap (λ k. take k (pending m)) (sym (none_asked e)),
          (λ p. absurd (ground arith)),
          λ _. ap (λ k. pos (length (take k (pending m)))) (sym (none_asked e)),
        ),
        ap (λ k. queue (drop k (pending m)) m.eof_return) (sym (none_asked e)),
      ))
      (λ e. read_some-Follows size n m small (ground arith) h)
  where
    none_asked : n == 0 ≡ true → n ≡ 0
    none_asked e = ground arith
step-Stays size (receive d) m small h = receive_some-Follows size d m h
step-Stays size (send n) m small h = send_some-Follows size n m h
step-Stays size (control_call c) m small h = control-Follows size c m h

-- The queue over a BIO, empty where there is none.
abbrev pub view_of : Option Memory → Queue
view_of none = queue [] (pos 0)
view_of (some m) = view m

run-Serves :
    (size : ℕ) (ops : List Op) (m : Memory)
    → size ≤ int_max
    → IsOrdered size m
    → Serves size ops (run ops (some m)).1 (view m) (view_of (run ops (some m)).0)
unfolding run
run-Serves size [] m small h = refl
run-Serves size (o ∷ ops) m small h =
    follow (step o (some m)) (step-Stays size o m small h) (λ n k. run-Serves size ops n small k)
  where
    follow :
        (r : Option Memory × Reply)
        → Stays size o (view m) r
        → ((n : Memory)
            → IsOrdered size n
            → Serves size ops (run ops (some n)).1 (view n) (view_of (run ops (some n)).0))
        → Serves size (o ∷ ops) (r.1 ∷ (run ops r.0).1) (view m) (view_of (run ops r.0).0)
    follow (none, r) s ih = absurd s
    follow (some n, r) s ih = (
      s.1,
      subst (λ q. Serves size ops (run ops (some n)).1 q (view_of (run ops (some n)).0)) s.2
          (ih n s.0),
    )

-- A memory BIO over a memory of at least one byte, and of at most 2^31 - 1, answers every history of
-- writes, reads, fills from the peer, sends and control commands as a queue of bytes does whose
-- length never passes that of the memory. A read or a send hands out the oldest bytes, as many as it
-- asks for and there are, and a read of none returns what it was set to. A write or a fill takes a
-- prefix, and into an empty queue as much as the memory holds. A fill of something is refused only
-- when the queue is as long as the memory.
pub new-Serves :
    (x : ℕ) (xs : List ℕ) (ops : List Op)
    → length (x ∷ xs) ≤ int_max
    → let r : Option Memory × List Reply = run ops (new (some (x ∷ xs))) in
      Serves (length (x ∷ xs)) ops r.1 (queue [] (pos 0)) (view_of r.0)
unfolding new
new-Serves x xs ops small =
    run-Serves (length (x ∷ xs)) ops
      (record { buffer = x ∷ xs; rptr = 0; wptr = 0; eof_return = pos 0; retry = no_retry }) small
      (refl, omega arith, omega arith, λ _. refl)

-- Over a history with no reset, a memory BIO hands out the bytes that were put in, in order: what
-- the reads and sends returned and then what still waits is what the writes and fills accepted.
pub new-delivers :
    (x : ℕ) (xs : List ℕ) (ops : List Op)
    → length (x ∷ xs) ≤ int_max
    → All (λ o. is_reset o ≡ false) ops
    → let r : Option Memory × List Reply = run ops (new (some (x ∷ xs))) in
      taken_out ops r.1 ++ (view_of r.0).bytes ≡ put_in ops r.1
new-delivers x xs ops small keep =
    let r : Option Memory × List Reply = run ops (new (some (x ∷ xs))) in
    Serves-order (length (x ∷ xs)) ops r.1 (queue [] (pos 0)) (view_of r.0) keep
      (new-Serves x xs ops small)
