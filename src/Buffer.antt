-- ===== src/Buffer.antt =====
-- The bytes-like objects that a transport is handed, and how it keeps what it could not send
-- (aiofastnet/utils.pyx, aiofastnet/transport.pyx). A contiguous buffer is its content; a
-- memoryview also has the type of its base object and the size of its items.
pub mod Tail
use aiofastnet.Base.{
  ℕ, ◌-◌, ◌*◌, ◌/◌, ◌≡◌, Bool, true, false, List, drop, length, if◌then◌else◌, leb,
}

pub data Buffer : Type 0 where
  bytes : List ℕ → Buffer
  bytearray : List ℕ → Buffer
  -- whether the base is a `bytes`, the item size, the content
  view : Bool → ℕ → List ℕ → Buffer

-- `aiofn_unpack_simple_buffer`: the memory range, always counted in bytes.
abbrev pub unpack : Buffer → List ℕ
unpack (bytes d) = d
unpack (bytearray d) = d
unpack (view _ _ d) = d

-- Python's `len`: a memoryview counts items.
unfoldable pub items : Buffer → ℕ
items (bytes d) = length d
items (bytearray d) = length d
items (view _ w d) = length d / w

-- `aiofn_maybe_copy_buffer`: what may be kept without a copy, or the copy.
unfoldable pub maybe_copy : Buffer → Buffer
maybe_copy (bytes d) = bytes d
maybe_copy (bytearray d) = bytes d
maybe_copy (view true w d) = view true w d
maybe_copy (view false w d) = bytes d

-- The start of the Python slice `b[n - size:]` of `n` items: below 0 it counts from the end.
abbrev pub slice_start : ℕ → ℕ → ℕ
slice_start n size = if leb size n then n - size else n - (size - n)

-- `aiofn_maybe_copy_buffer_tail(buffer, ptr, size)`, where `rest` is the `size` bytes at `ptr`.
unfoldable pub copy_tail : Buffer → List ℕ → ℕ → Buffer
copy_tail (bytes d) rest size = view true 1 (drop (length d - size) d)
copy_tail (bytearray d) rest size = bytes rest
copy_tail (view true w d) rest size = view true w (drop (slice_start (length d / w) size * w) d)
copy_tail (view false w d) rest size = bytes rest

-- Every item of a memoryview over `bytes` is one byte.
abbrev pub IsBytewise : Buffer → Type 0
IsBytewise (bytes _) = Unit {0}
IsBytewise (bytearray _) = Unit {0}
IsBytewise (view true w _) = w ≡ 1
IsBytewise (view false _ _) = Unit {0}
