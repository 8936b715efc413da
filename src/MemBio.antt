-- ===== src/MemBio.antt =====
-- The memory BIO of fixed capacity that carries TLS records between the engine and the transport
-- (aiofastnet/static_mem_bio.c). Pointers are offsets from `begin`, and `end` is the length of the
-- memory. The data pointer of a BIO is `none` before and after its life, as the code tests it.

pub mod Queue
pub mod Invariant
pub mod Moves
pub mod Calls
pub mod Refine
use aiofastnet.Base.{
  ℕ, ◌+◌, ◌-◌, min, Bool, true, false, Option, none, some, List, [], ◌∷◌, ◌++◌, take, drop, length,
  ltb, ◌==◌, ◌&&◌, not, if◌then◌else◌,
}

-- C's `int`, as far as it is returned.
pub data ℤ : Type 0 where
  pos negsuc : ℕ → ℤ

abbrev pub int_max : ℕ
int_max = 2147483647

-- The retry flags of a BIO: none, or `SHOULD_RETRY` with a direction.
pub data Retry : Type 0 where
  no_retry retry_read retry_write : Retry

-- `static_mem_bio_state_t`, with the flags of the BIO that owns it.
pub record Memory : Type 0 where
  pub buffer : List ℕ
  pub rptr : ℕ
  pub wptr : ℕ
  pub eof_return : ℤ
  pub retry : Retry

-- What a call hands out: the bytes it copied, and its return value.
pub record Reply : Type 0 where
  pub bytes : List ℕ
  pub result : ℤ

abbrev pub returns : ℤ → Reply
returns n = record { bytes = []; result = n }

unfoldable pub avail : Memory → ℕ
avail m = m.wptr - m.rptr

unfoldable pub space : Memory → ℕ
space m = length m.buffer - m.wptr

-- `memcpy` and `memmove` to an offset.
unfoldable pub overwrite : ℕ → List ℕ → List ℕ → List ℕ
overwrite at xs buffer = take at buffer ++ (xs ++ drop (at + length xs) buffer)

-- The bytes from the read pointer on.
unfoldable pub unread : ℕ → Memory → List ℕ
unread n m = take n (drop m.rptr m.buffer)

-- A count as an `int`.
unfoldable pub to_int : ℕ → ℤ
to_int n = if ltb int_max n then pos int_max else pos n

-- `BIO_new_static_mem`: there is no BIO over no memory.
unfoldable pub new : Option (List ℕ) → Option Memory
new none = none
new (some []) = none
new (some (x ∷ xs)) =
    some (record { buffer = x ∷ xs; rptr = 0; wptr = 0; eof_return = pos 0; retry = no_retry })

-- `static_mem_bio_destroy`, on a BIO that is there.
unfoldable pub destroy : Option Memory → Option Memory × ℤ
destroy st = (none, pos 1)

-- The read pointer moves on, and both go back to the start when they meet.
unfoldable pub advance : ℕ → Memory → Memory
advance n m =
    if m.rptr + n == m.wptr then record m { rptr = 0; wptr = 0 } else record m { rptr = m.rptr + n }

unfoldable pub read_some : ℕ → Memory → Memory × Reply
read_some outl m =
    if avail m == 0
    then (record m { retry = retry_read }, returns m.eof_return)
    else let n = min (avail m) outl in
      (advance n (record m { retry = no_retry }), record { bytes = unread n m; result = to_int n })

-- `static_mem_bio_read`, into so much room, or into a null pointer.
unfoldable pub read : Option ℕ → Option Memory → Option Memory × Reply
read none st = (st, returns (pos 0))
read (some outl) none = (none, returns (pos 0))
read (some outl) (some m) =
    if outl == 0 then (some m, returns (pos 0)) else let r = read_some outl m in (some r.0, r.1)

unfoldable pub write_some : List ℕ → Memory → Memory × Reply
write_some d m =
    if space m == 0
    then (record m { retry = retry_write }, returns (negsuc 0))
    else let n = min (space m) (length d) in
      (
        record m {
          buffer = overwrite m.wptr (take n d) m.buffer;
          wptr = m.wptr + n;
          retry = if ltb n (length d) then retry_write else no_retry;
        },
        returns (to_int n),
      )

-- `static_mem_bio_write`, of these bytes, or of a null pointer.
unfoldable pub write : Option (List ℕ) → Option Memory → Option Memory × Reply
write none st = (st, returns (pos 0))
write (some d) none = (none, returns (pos 0))
write (some d) (some m) =
    if length d == 0 then (some m, returns (pos 0)) else let r = write_some d m in (some r.0, r.1)

-- The commands of `static_mem_bio_ctrl`.
pub data Command : Type 0 where
  ctrl_reset ctrl_eof ctrl_pending ctrl_wpending ctrl_flush file_seek file_tell dup other : Command
  -- BIO_CTRL_INFO, with a pointer or without
  info : Bool → Command
  set_buf_mem_eof_return : ℤ → Command
  set_nbio : ℕ → Command

-- The bytes of the reply are those that `info` points at.
unfoldable pub control : Command → Memory → Memory × Reply
control ctrl_reset m = (record m { rptr = 0; wptr = 0 }, returns (pos 1))
control ctrl_eof m = (m, returns (pos (if m.wptr == m.rptr then 1 else 0)))
control (info true) m = (m, record { bytes = unread (avail m) m; result = pos (avail m) })
control (info false) m = (m, returns (pos (avail m)))
control ctrl_pending m = (m, returns (pos (avail m)))
control ctrl_wpending m = (m, returns (pos 0))
control ctrl_flush m = (m, returns (pos 1))
control file_seek m = (m, returns (negsuc 1))
control file_tell m = (m, returns (pos 0))
control (set_buf_mem_eof_return n) m = (record m { eof_return = n }, returns (pos 1))
control (set_nbio n) m =
    (record m { eof_return = if n == 0 then pos 0 else negsuc 0 }, returns (pos 1))
control dup m = (m, returns (pos 1))
control other m = (m, returns (pos 0))

unfoldable pub ctrl : Command → Option Memory → Option Memory × Reply
ctrl ctrl_reset none = (none, returns (pos 1))
ctrl _ none = (none, returns (pos 0))
ctrl c (some m) = let r = control c m in (some r.0, r.1)

-- `BIO_static_mem_get_write_buf`: what is unread moves to the front when the end is reached.
unfoldable pub compact : Memory → Memory
compact m =
    if not (m.rptr == 0) && (m.wptr == length m.buffer)
    then record m { buffer = overwrite 0 (unread (avail m) m) m.buffer; rptr = 0; wptr = avail m }
    else m

-- The offset and the room it points at, if it gives any.
unfoldable pub get_write_buf : Option Memory → Option Memory × Option (ℕ × ℕ)
get_write_buf none = (none, none)
get_write_buf (some m) = let c = compact m in (some c, some (c.wptr, space c))

unfoldable pub produce_some : ℕ → Memory → Memory × ℤ
produce_some n m =
    if ltb (space m) n then (m, negsuc 0) else (record m { wptr = m.wptr + n }, pos 1)

unfoldable pub produce : ℕ → Option Memory → Option Memory × ℤ
produce n none = (none, negsuc 0)
produce n (some m) = let r = produce_some n m in (some r.0, r.1)

unfoldable pub consume_some : ℕ → Memory → Memory × ℤ
consume_some n m = if ltb (avail m) n then (m, negsuc 0) else (advance n m, pos 1)

unfoldable pub consume : ℕ → Option Memory → Option Memory × ℤ
consume n none = (none, negsuc 0)
consume n (some m) = let r = consume_some n m in (some r.0, r.1)

-- What the engine and the transport do with the BIO that they share (`incoming_bio_get_write_buf`,
-- `incoming_bio_produce`, `outgoing_bio_get_data` and `outgoing_bio_consume` of
-- aiofastnet/ssl_engine_direct.pyx). `receive` is the transport reading these bytes from its peer
-- straight into the memory, as far as there is room, and `send` the transport taking up to so many
-- bytes out of it. A negative result is a RuntimeError.
pub data Op : Type 0 where
  write_call : List ℕ → Op
  read_call : ℕ → Op
  receive : List ℕ → Op
  send : ℕ → Op
  control_call : Command → Op

-- The count if the call succeeded.
unfoldable pub counted : ℕ → ℤ → ℤ
counted n (pos _) = pos n
counted n (negsuc e) = negsuc e

unfoldable pub receive_at : List ℕ → Memory → Memory × Reply
receive_at d c =
    let n = min (space c) (length d) in
    let p = produce_some n (record c { buffer = overwrite c.wptr (take n d) c.buffer }) in
    if space c == 0 then (c, returns (negsuc 0)) else (p.0, returns (counted n p.1))

unfoldable pub receive_some : List ℕ → Memory → Memory × Reply
receive_some d m = receive_at d (compact m)

unfoldable pub send_some : ℕ → Memory → Memory × Reply
send_some k m =
    let n = min (avail m) k in
    let c = consume_some n m in (c.0, record { bytes = unread n m; result = counted n c.1 })

unfoldable pub step : Op → Option Memory → Option Memory × Reply
step (write_call d) st = write (some d) st
step (read_call n) st = read (some n) st
step (control_call c) st = ctrl c st
step (receive d) none = (none, returns (negsuc 0))
step (receive d) (some m) = let r = receive_some d m in (some r.0, r.1)
step (send n) none = (none, returns (negsuc 0))
step (send n) (some m) = let r = send_some n m in (some r.0, r.1)

unfoldable pub run : List Op → Option Memory → Option Memory × List Reply
run [] st = (st, [])
run (o ∷ ops) st = let r = step o st in let rest = run ops r.0 in (rest.0, r.1 ∷ rest.1)
