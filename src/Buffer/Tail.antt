-- ===== src/Buffer/Tail.antt =====
-- What a transport keeps of a partly sent buffer (aiofastnet/utils.pyx).
use native.Mathlib.Nat.{mul-div_cancel}
use aiofastnet.Base.{
  ◌+◌, ap, ℕ, ◌-◌, ◌*◌, ◌/◌, ◌≤◌, ◌<◌, ◌≡◌, refl, true, false, List, drop, length, length-drop,
  arith,
}
use aiofastnet.Buffer.{
  Buffer, bytes, bytearray, view, unpack, maybe_copy, slice_start, copy_tail, IsBytewise,
}

-- Keeping a buffer whole never changes its content.
pub unpack-maybe_copy : (b : Buffer) → unpack (maybe_copy b) ≡ unpack b
unfolding maybe_copy
unpack-maybe_copy (bytes d) = refl
unpack-maybe_copy (bytearray d) = refl
unpack-maybe_copy (view true w d) = refl
unpack-maybe_copy (view false w d) = refl

-- After k of its bytes are sent, what is kept of a buffer is exactly the bytes from k on, if the
-- buffer is not a memoryview over bytes whose items are wider than a byte.
pub unpack-copy_tail :
    (b : Buffer) (k : ℕ)
    → IsBytewise b
    → k ≤ length (unpack b)
    → unpack (copy_tail b (drop k (unpack b)) (length (unpack b) - k)) ≡ drop k (unpack b)
unfolding copy_tail
unpack-copy_tail (bytes d) k h le = ground arith
unpack-copy_tail (bytearray d) k h le = refl
unpack-copy_tail (view true w d) k h le = ground arith
unpack-copy_tail (view false w d) k h le = refl

-- A memoryview over bytes of n items of w bytes each, of which size ≤ n bytes are not yet sent:
-- what is kept is size items, which is size * w bytes.
pub length-copy_tail_wide :
    (d rest : List ℕ) (n w size : ℕ)
    → 0 < w
    → length d ≡ n * w
    → size ≤ n
    → length (unpack (copy_tail (view true w d) rest size)) ≡ size * w
unfolding copy_tail
length-copy_tail_wide d rest n w size pos e le =
    let count : length d / w ≡ n = rw e (mul-div_cancel n pos) in
    let start : slice_start n size ≡ n - size = ground arith in
    rw (count, start) (omega (arith, length-drop ((n - size) * w) d, e, split))
  where
    split : (n - size) * w + size * w ≡ n * w
    split =
        let whole : n - size + size ≡ n = omega arith in omega (arith, ap (λ (t : ℕ). t * w) whole)
