-- ===== src/Stream/Write.antt =====
-- `write`, `writelines` and `write_c` of `StreamTransport` (aiofastnet/transport.pyx): what the
-- socket takes at once is sent, and the rest is queued.
use aiofastnet.Base.{
  ℕ, ◌+◌, ◌-◌, Option, none, some, List, [], ◌∷◌, ◌++◌, drop, length, leb, ◌==◌, if◌then◌else◌,
}
use aiofastnet.Buffer.{Buffer, unpack, maybe_copy, copy_tail}
use aiofastnet.Stream.Kernel.{Kernel, Exc, runtime_error, Sent, sent, again, failed, aiofn_write}
use aiofastnet.Stream.State.{
  Stream, Request, write_request, emit, log_warning, maybe_pause, start_backlog_writing,
  handle_error, request_size,
}

-- What a call gives its caller.
pub data Reply : Type 0 where
  returned : Reply
  raised : Exc → Reply
  awaits : ℕ → Reply

-- `LOG_THRESHOLD_FOR_CONNLOST_WRITES`
abbrev pub log_threshold : ℕ
log_threshold = 5

-- The rest of a `_try_write`: `none` when everything was sent.
abbrev pub keep_tail : Option Buffer → List ℕ → ℕ → Request
keep_tail none rest size = write_request rest
keep_tail (some b) rest size = write_request (unpack (copy_tail b rest size))

pub data Tried : Type 0 where
  sent_all : Tried
  left : Request → Tried
  broke : Exc → Tried

abbrev pub after_write : Option Buffer → List ℕ → Sent → Tried
after_write owner d (failed e) = broke e
after_write owner d again = left (keep_tail owner d (length d))
after_write owner d (sent n) =
    if n == length d then sent_all else left (keep_tail owner (drop n d) (length d - n))

-- `_try_write(data, ptr, size)`; without an owner the rest is copied.
unfoldable pub try_write : Option Buffer → List ℕ → Kernel → Kernel × Tried
try_write owner d k = let (k', r) = aiofn_write d k in (k', after_write owner d r)

-- `__append_request`
unfoldable pub append_request : Request → Stream → Stream
append_request r s = record s {
  write_backlog = s.write_backlog ++ (r ∷ []);
  write_backlog_size = s.write_backlog_size + request_size r;
}

-- The end of a write: queue, watch for readiness, tell the protocol.
unfoldable pub enqueue : Request → Stream → Stream
unfolding append_request start_backlog_writing maybe_pause
enqueue r s = maybe_pause (start_backlog_writing (append_request r s))

abbrev pub after_try : Tried → Stream → Stream
after_try sent_all s = s
after_try (left r) s = enqueue r s
after_try (broke e) s = handle_error e s

unfoldable pub write_now : Option Buffer → List ℕ → Stream → Stream
write_now owner d s =
    let (k, t) = try_write owner d s.kernel in after_try t (record s { kernel = k })

-- The body of `write_nocheck`: a first attempt only while nothing is queued.
unfoldable pub write_data : Buffer → Stream → Stream
write_data b s =
    if s.write_backlog_size == 0
    then if length (unpack b) == 0 then s else write_now (some b) (unpack b) s
    else let d = unpack (maybe_copy b) in if length d == 0 then s else enqueue (write_request d) s

-- `__pre_write_check`, around the body of a write.
unfoldable pub count_closed_write : Stream → Stream
count_closed_write s =
    let s1 = if leb log_threshold s.closed_write_count then emit log_warning s else s in
    record s1 { closed_write_count = s1.closed_write_count + 1 }

unfoldable pub pre_write_check : (Stream → Stream) → Stream → Stream × Reply
unfolding count_closed_write
pre_write_check body s =
    if s.write_eof_called
    then (s, raised runtime_error)
    else if s.finalizing_close
    then (count_closed_write s, returned)
    else (body s, returned)

unfoldable pub write_nocheck : Buffer → Stream → Stream × Reply
unfolding pre_write_check
write_nocheck b s = pre_write_check (write_data b) s

-- `write_c(ptr, size)`: the memory is the caller's, so what is kept is copied.
unfoldable pub write_pointer_data : List ℕ → Stream → Stream
write_pointer_data d s =
    if length d == 0
    then s
    else if s.write_backlog_size == 0
    then write_now none d s
    else enqueue (write_request d) s

unfoldable pub write_c : List ℕ → Stream → Stream × Reply
unfolding pre_write_check
write_c d s = pre_write_check (write_pointer_data d) s
