-- ===== src/Stream/Watermarks.antt =====
-- `WriteWatermarks` (aiofastnet/transport.pyx): the limits of a write buffer, and the calls that
-- pause and resume the protocol. Limits are natural numbers.
use aiofastnet.Base.{ℕ, ◌*◌, ◌/◌, Bool, true, false, ◌&&◌, Option, none, some, leb, if◌then◌else◌}

pub record Watermarks : Type 0 where
  pub low_water : ℕ
  pub high_water : ℕ
  pub paused : Bool

-- The call that a check makes to the application's protocol.
pub data Call : Type 0 where
  pause_writing resume_writing : Call

-- The high limit that `_set_write_buffer_limits(high, low)` settles on, and the low one.
abbrev pub high_limit : Option ℕ → Option ℕ → ℕ
high_limit (some high) low = high
high_limit none none = 64 * 1024
high_limit none (some low) = 4 * low

abbrev pub low_limit : ℕ → Option ℕ → ℕ
low_limit high none = high / 4
low_limit high (some low) = low

-- `_set_write_buffer_limits`; `none` is the `ValueError`.
unfoldable pub set_limits : Watermarks → Option ℕ → Option ℕ → Option Watermarks
set_limits w high low =
    let h = high_limit high low in
    let l = low_limit h low in
    if leb l h then some (record w { low_water = l; high_water = h }) else none

-- `WriteWatermarks.__init__`
unfoldable pub init : Watermarks
init = record { low_water = 64 * 1024 / 4; high_water = 64 * 1024; paused = false }

unfoldable pub maybe_pause_protocol : Watermarks → ℕ → Watermarks × Option Call
maybe_pause_protocol w size =
    if leb size w.high_water
    then (w, none)
    else if w.paused
    then (w, none)
    else (record w { paused = true }, some pause_writing)

unfoldable pub maybe_resume_protocol : Watermarks → ℕ → Watermarks × Option Call
maybe_resume_protocol w size =
    if w.paused && leb size w.low_water
    then (record w { paused = false }, some resume_writing)
    else (w, none)
