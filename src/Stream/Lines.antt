-- ===== src/Stream/Lines.antt =====
-- The gathered writes of `StreamTransport` (aiofastnet/transport.pyx): `_try_writelines` sends in
-- groups of at most `AIOFN_MAX_IOVEC` buffers, `writelines` queues what is left.
pub mod Groups
use aiofastnet.Base.{
  ℕ, ◌+◌, ◌-◌, Bool, true, false, List, [], ◌∷◌, ◌++◌, drop, length, leb, ltb, ◌==◌, if◌then◌else◌,
}
use aiofastnet.Buffer.{Buffer, unpack, maybe_copy, copy_tail}
use aiofastnet.Stream.Kernel.{Kernel, Exc, Sent, sent, again, failed, aiofn_writev}
use aiofastnet.Stream.State.{
  Stream, Request, write_request, sendfile_request, maybe_pause, start_backlog_writing,
  handle_error,
}
use aiofastnet.Stream.Write.{Reply, pre_write_check, append_request}

abbrev pub max_iovec : ℕ
max_iovec = 256

-- The result of `_try_writelines`: whether everything was sent, and `total_bytes_sent`; or what
-- was raised.
pub data Flushed : Type 0 where
  flushed : Bool → ℕ → Flushed
  broke : Exc → Flushed

-- The test after a group, `bytes_sent != bytes_to_send`: on with the others, or stop.
abbrev pub next_group : (ℕ → Kernel → Kernel × Flushed) → ℕ → ℕ → Kernel × Sent → Kernel × Flushed
next_group rest to_send total (k, failed e) = (k, broke e)
next_group rest to_send total (k, again) = (k, flushed false total)
next_group rest to_send total (k, sent n) =
    let others = rest (total + n) k in
    if n == to_send then others else (k, flushed false (total + n))

-- The loop of `_try_writelines`: `buffers` holds the `index` ranges that are gathered so far, of
-- `to_send` bytes.
unfoldable pub flush_lines : List (List ℕ) → List (List ℕ) → ℕ → ℕ → ℕ → Kernel → Kernel × Flushed
flush_lines [] buffers index to_send total k =
    if index == 0
    then (k, flushed true total)
    else next_group (λ t k'. (k', flushed true t)) to_send total (aiofn_writev buffers k)
flush_lines (d ∷ ds) buffers index to_send total k = elim (ltb index (max_iovec - 1)) [
  | true ↦ flush_lines ds (buffers ++ (d ∷ [])) (index + 1) (to_send + length d) total k
  | false ↦
      next_group (λ t k'. flush_lines ds [] 0 0 t k') (to_send + length d) total
        (aiofn_writev (buffers ++ (d ∷ [])) k)
]

-- The ranges that the loop gathers from the caller's buffers: empty ones are skipped.
unfoldable pub ranges : List Buffer → List (List ℕ)
ranges [] = []
ranges (b ∷ bs) = let rest = ranges bs in if length (unpack b) == 0 then rest else unpack b ∷ rest

-- The ranges that it gathers from the backlog: up to the first file transfer.
unfoldable pub backlog_ranges : List Request → List (List ℕ)
backlog_ranges [] = []
backlog_ranges (write_request d ∷ rest) = d ∷ backlog_ranges rest
backlog_ranges (sendfile_request _ ∷ rest) = []

unfoldable pub try_writelines : List (List ℕ) → Kernel → Kernel × Flushed
try_writelines ds k = flush_lines ds [] 0 0 0 k

-- The request for a buffer of which `n` bytes are sent.
unfoldable pub line_request : Buffer → ℕ → Request
line_request b n = write_request (
    if n == 0
    then unpack (maybe_copy b)
    else unpack (copy_tail b (drop n (unpack b)) (length (unpack b) - n)))

-- `__append_lines_tail`: the bytes that were sent are passed over, the rest is queued.
unfoldable pub append_lines_tail : List Buffer → ℕ → Stream → Stream
append_lines_tail [] n s = s
append_lines_tail (b ∷ bs) n s = elim (leb (length (unpack b)) n) [
  | true ↦ append_lines_tail bs (n - length (unpack b)) s
  | false ↦ append_lines_tail bs 0 (append_request (line_request b n) s)
]

unfoldable pub queue_lines : List Buffer → ℕ → Stream → Stream
unfolding append_lines_tail start_backlog_writing maybe_pause
queue_lines bs n s = maybe_pause (start_backlog_writing (append_lines_tail bs n s))

abbrev pub after_lines : List Buffer → Flushed → Stream → Stream
after_lines bs (flushed true n) s = s
after_lines bs (flushed false n) s = queue_lines bs n s
after_lines bs (broke e) s = handle_error e s

-- The attempt to send at once, while nothing is queued.
unfoldable pub lines_now : List Buffer → Stream → Stream
lines_now bs s =
    let (k, r) = try_writelines (ranges bs) s.kernel in after_lines bs r (record s { kernel = k })

-- The body of `writelines_nocheck`.
unfoldable pub write_lines : List Buffer → Stream → Stream
write_lines bs s = if s.write_backlog_size == 0 then lines_now bs s else queue_lines bs 0 s

unfoldable pub writelines_nocheck : List Buffer → Stream → Stream × Reply
unfolding pre_write_check
writelines_nocheck bs s = pre_write_check (write_lines bs) s
