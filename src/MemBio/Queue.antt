-- ===== src/MemBio/Queue.antt =====
-- What a memory BIO promises to the engine and to the transport that share it
-- (aiofastnet/static_mem_bio.c): a queue of bytes that holds no more than the memory does.
use aiofastnet.Base.{
  ℕ, ◌+◌, ◌≤◌, ◌<◌, min, ◌≡◌, arith, refl, sym, ap, ◌∙◌, Bool, true, false, List, [], ◌∷◌, ◌++◌,
  take, drop, length, is_empty, ◌==◌, if◌then◌else◌, All, append-nil, append_assoc,
  take-append-drop,
}
use aiofastnet.MemBio.{
  ℤ, pos, negsuc, Reply, returns, Command, ctrl_reset, ctrl_eof, ctrl_pending, ctrl_wpending,
  ctrl_flush, dup, file_seek, file_tell, other, info, set_buf_mem_eof_return, set_nbio, Op,
  write_call, read_call, receive, send, control_call,
}

-- The bytes that wait, oldest first, and what a read of none returns.
pub record Queue : Type 0 where
  pub bytes : List ℕ
  pub eof_return : ℤ

abbrev pub count : ℤ → ℕ
count (pos n) = n
count (negsuc _) = 0

-- The queue after a call, by what the call returned.
abbrev pub after : Op → Reply → Queue → Queue
after (write_call d) r q = record q { bytes = q.bytes ++ take (count r.result) d }
after (receive d) r q = record q { bytes = q.bytes ++ take (count r.result) d }
after (read_call n) r q = record q { bytes = drop n q.bytes }
after (send n) r q = record q { bytes = drop n q.bytes }
after (control_call ctrl_reset) r q = record q { bytes = [] }
after (control_call (set_buf_mem_eof_return n)) r q = record q { eof_return = n }
after (control_call (set_nbio n)) r q = record q { eof_return = if n == 0 then pos 0 else negsuc 0 }
after (control_call _) r q = q

-- A call that puts bytes in accepts a prefix that fits. It accepts something whenever it can be
-- sure of room.
abbrev pub Accepts : ℕ → ℕ → ℤ → ℕ → Type 0
Accepts size offered result used =
    (count result ≤ offered)
    × (used + count result ≤ size)
    × (used ≡ 0 → count result ≡ min size offered)

abbrev pub control_reply : Command → Queue → Reply
control_reply ctrl_eof q = returns (pos (if is_empty q.bytes then 1 else 0))
control_reply (info true) q = record { bytes = q.bytes; result = pos (length q.bytes) }
control_reply (info false) q = returns (pos (length q.bytes))
control_reply ctrl_pending q = returns (pos (length q.bytes))
control_reply ctrl_wpending q = returns (pos 0)
control_reply file_seek q = returns (negsuc 1)
control_reply file_tell q = returns (pos 0)
control_reply other q = returns (pos 0)
control_reply _ q = returns (pos 1)

-- What a call may return over a queue.
abbrev pub Allowed : ℕ → Op → Reply → Queue → Type 0
Allowed size (write_call d) r q =
    Accepts size (length d) r.result (length q.bytes)
    × (0 < length d → count r.result ≡ 0 → r.result ≡ negsuc 0)
Allowed size (receive d) r q =
    Accepts size (length d) r.result (length q.bytes)
    × (count r.result ≡ 0 → (0 < length d) → length q.bytes ≡ size)
Allowed size (read_call n) r q =
    (r.bytes ≡ take n q.bytes)
    × (0 < n → length q.bytes ≡ 0 → r.result ≡ q.eof_return)
    × (0 < length q.bytes → r.result ≡ pos (length (take n q.bytes)))
Allowed size (send n) r q = (r.bytes ≡ take n q.bytes) × (r.result ≡ pos (length (take n q.bytes)))
Allowed size (control_call c) r q = r ≡ control_reply c q

front :
    (k : ℕ) (out outs last bytes ins : List ℕ)
    → out ≡ take k bytes
    → outs ++ last ≡ drop k bytes ++ ins
    → out ++ outs ++ last ≡ bytes ++ ins
front k out outs last bytes ins e f =
    append_assoc out outs last
    ∙ ap (λ t. t ++ (outs ++ last)) e
    ∙ ap (λ t. take k bytes ++ t) f
    ∙ sym (append_assoc (take k bytes) (drop k bytes) ins)
    ∙ ap (λ t. t ++ ins) (take-append-drop k bytes)

-- The replies to a history are those of the queue, which it leaves as the last one.
abbrev pub Serves : ℕ → List Op → List Reply → Queue → Queue → Type 0
Serves size [] [] q last = last ≡ q
Serves size (o ∷ ops) (r ∷ rs) q last = Allowed size o r q × Serves size ops rs (after o r q) last
Serves size _ _ q last = ⊥

-- The bytes that the calls of a history put in, and those that they took out.
abbrev pub put_in : List Op → List Reply → List ℕ
put_in (write_call d ∷ ops) (r ∷ rs) = take (count r.result) d ++ put_in ops rs
put_in (receive d ∷ ops) (r ∷ rs) = take (count r.result) d ++ put_in ops rs
put_in (_ ∷ ops) (r ∷ rs) = put_in ops rs
put_in _ _ = []

abbrev pub taken_out : List Op → List Reply → List ℕ
taken_out (read_call n ∷ ops) (r ∷ rs) = r.bytes ++ taken_out ops rs
taken_out (send n ∷ ops) (r ∷ rs) = r.bytes ++ taken_out ops rs
taken_out (_ ∷ ops) (r ∷ rs) = taken_out ops rs
taken_out _ _ = []

abbrev pub is_reset : Op → Bool
is_reset (control_call ctrl_reset) = true
is_reset _ = false

after-bytes :
    (c : Command) (r : Reply) (q : Queue)
    → is_reset (control_call c) ≡ false
    → (after (control_call c) r q).bytes ≡ q.bytes
after-bytes ctrl_reset r q e = absurd (ground arith)
after-bytes ctrl_eof r q e = refl
after-bytes ctrl_pending r q e = refl
after-bytes ctrl_wpending r q e = refl
after-bytes ctrl_flush r q e = refl
after-bytes file_seek r q e = refl
after-bytes file_tell r q e = refl
after-bytes dup r q e = refl
after-bytes other r q e = refl
after-bytes (info b) r q e = refl
after-bytes (set_buf_mem_eof_return n) r q e = refl
after-bytes (set_nbio n) r q e = refl

-- A queue gives back what was put in, in order.
pub Serves-order :
    (size : ℕ) (ops : List Op) (rs : List Reply) (q last : Queue)
    → All (λ o. is_reset o ≡ false) ops
    → Serves size ops rs q last
    → taken_out ops rs ++ last.bytes ≡ q.bytes ++ put_in ops rs
Serves-order size [] [] q last n s = ap (λ t. t.bytes) s ∙ sym (append-nil q.bytes)
Serves-order size [] (r ∷ rs) q last n s = absurd s
Serves-order size (o ∷ ops) [] q last n s = absurd s
Serves-order size (write_call d ∷ ops) (r ∷ rs) q last n s =
    Serves-order size ops rs (after (write_call d) r q) last n.1 s.1
    ∙ append_assoc q.bytes (take (count r.result) d) (put_in ops rs)
Serves-order size (receive d ∷ ops) (r ∷ rs) q last n s =
    Serves-order size ops rs (after (receive d) r q) last n.1 s.1
    ∙ append_assoc q.bytes (take (count r.result) d) (put_in ops rs)
Serves-order size (read_call k ∷ ops) (r ∷ rs) q last n s =
    front k r.bytes (taken_out ops rs) last.bytes q.bytes (put_in ops rs) s.0.0
      (Serves-order size ops rs (after (read_call k) r q) last n.1 s.1)
Serves-order size (send k ∷ ops) (r ∷ rs) q last n s =
    front k r.bytes (taken_out ops rs) last.bytes q.bytes (put_in ops rs) s.0.0
      (Serves-order size ops rs (after (send k) r q) last n.1 s.1)
Serves-order size (control_call c ∷ ops) (r ∷ rs) q last n s =
    Serves-order size ops rs (after (control_call c) r q) last n.1 s.1
    ∙ ap (λ t. t ++ put_in ops rs) (after-bytes c r q n.0)
