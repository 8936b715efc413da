-- ===== src/Reading/Budget.antt =====
-- How often a read event asks the system for bytes (aiofastnet/selector_transport.pyx).
use aiofastnet.Base.{
  ℕ, zero, suc, ◌+◌, ◌≤◌, ◌<◌, ◌≡◌, refl, sym, ap, ◌∙◌, Bool, true, false, not, ◌||◌, [], ◌∷◌,
  length, ltb, if◌then◌else◌, Bool-cases, inl, inr, arith,
}
use aiofastnet.Reading.{
  Reader, Reply, ok, raised, Got, got, again, failed, hand, aiofn_read, data_received_max_size,
  max_read_bytes_per_cycle_hint, may_read, go_on, after_read, simple_loop, get_buffer, into_buffer,
  buffered_loop,
}

-- Rounds that agree after a read of at least one byte, and of at least the limit's.
go_on-next :
    (kind : Bool) (limit n : ℕ) (f g : ℕ → Reader → Reader × Reply (Unit {0}))
    (r : Reader × Reply (Unit {0}))
    → ((t : Reader) → limit ≤ n → f n t ≡ g n t)
    → go_on kind limit n f r ≡ go_on kind limit n g r
unfolding go_on
go_on-next kind limit n f g (t, raised e) h = refl
go_on-next kind limit n f g (t, ok u) h = elim (Bool-cases (ltb n limit)) [
  | inl e ↦ rw e refl
  | inr e ↦
      ap (λ x. if ltb n limit || not (if t.buffered then kind else not kind) then (t, ok tt) else x)
        (h t (ground arith))
]

after_read-next :
    (kind : Bool) (limit : ℕ) (f g : ℕ → Reader → Reader × Reply (Unit {0})) (r : Reader × Got)
    → ((n : ℕ) (t : Reader) → 0 < n → limit ≤ n → f n t ≡ g n t)
    → after_read kind limit f r ≡ after_read kind limit g r
unfolding after_read
after_read-next kind limit f g (t, again) h = refl
after_read-next kind limit f g (t, failed e) h = refl
after_read-next kind limit f g (t, got []) h = refl
after_read-next kind limit f g (t, got (x ∷ d)) h =
    go_on-next kind limit (length (x ∷ d)) f g (hand (x ∷ d) t)
      (λ u k. h (length (x ∷ d)) u (omega arith) k)

into_buffer-next :
    (f g : ℕ → Reader → Reader × Reply (Unit {0})) (r : Reader × Reply ℕ)
    → ((n : ℕ) (t : Reader) → 0 < n → f n t ≡ g n t)
    → into_buffer f r ≡ into_buffer g r
unfolding into_buffer
into_buffer-next f g (t, raised e) h = refl
into_buffer-next f g (t, ok len) h =
    after_read-next true len f g (aiofn_read len t) (λ n u k _. h n u k)

-- A budget that is used up ends the loop.
spent : (total : ℕ) (s : Reader) → max_read_bytes_per_cycle_hint ≤ total → may_read total s ≡ false
unfolding may_read
spent total s h = ground arith

buffered_loop-spent :
    (fuel total : ℕ) (s : Reader)
    → max_read_bytes_per_cycle_hint ≤ total
    → buffered_loop fuel total s ≡ (s, ok tt)
unfolding buffered_loop
buffered_loop-spent zero total s h = refl
buffered_loop-spent (suc fuel) total s h = rw (spent total s h) refl

simple_loop-spent :
    (fuel total : ℕ) (s : Reader)
    → max_read_bytes_per_cycle_hint ≤ total
    → simple_loop fuel total s ≡ (s, ok tt)
unfolding simple_loop
simple_loop-spent zero total s h = refl
simple_loop-spent (suc fuel) total s h = rw (spent total s h) refl

buffered_loop-fuel :
    (f g total : ℕ) (s : Reader)
    → max_read_bytes_per_cycle_hint ≤ total + f
    → max_read_bytes_per_cycle_hint ≤ total + g
    → buffered_loop f total s ≡ buffered_loop g total s
unfolding buffered_loop
buffered_loop-fuel zero g total s hf hg =
    buffered_loop-spent 0 total s (omega arith) ∙ sym (buffered_loop-spent g total s (omega arith))
buffered_loop-fuel (suc f) zero total s hf hg = buffered_loop-spent (suc f) total s (omega arith)
buffered_loop-fuel (suc f) (suc g) total s hf hg =
    ap (λ r. if may_read total s then r else (s, ok tt))
      (into_buffer-next (λ n t. buffered_loop f (total + n) t)
        (λ n t. buffered_loop g (total + n) t) (get_buffer s.buffers s)
        (λ n t k. buffered_loop-fuel f g (total + n) t (omega arith) (omega arith)))

-- Either loop of a read event ends within its budget. With as many rounds as the budget has bytes
-- the loop into the protocol's buffers does what it does with more, since a round that goes on has
-- read a byte; and the loop with `data_received` does what its first round does, since a round that
-- goes on has used up the budget: a read event asks the system once.
pub loops_end :
    (fuel : ℕ) (s : Reader)
    → max_read_bytes_per_cycle_hint ≤ fuel
    → (buffered_loop fuel 0 s ≡ buffered_loop max_read_bytes_per_cycle_hint 0 s)
      × (simple_loop fuel 0 s ≡ simple_loop 1 0 s)
unfolding simple_loop
loops_end zero s h = absurd (omega arith)
loops_end (suc fuel) s h = (
  buffered_loop-fuel (suc fuel) max_read_bytes_per_cycle_hint 0 s (omega arith) (omega arith),
  ap (λ r. if may_read 0 s then r else (s, ok tt))
      (after_read-next false data_received_max_size (λ n t. simple_loop fuel (0 + n) t)
        (λ n t. (t, ok tt)) (aiofn_read data_received_max_size s)
        (λ n t _ k. simple_loop-spent fuel (0 + n) t (omega arith))),
)
