-- ===== src/Stream/Delivery/Lines.antt =====
-- `writelines` delivers the concatenation of its buffers (aiofastnet/transport.pyx).
use aiofastnet.Base.{
  ℕ, ◌+◌, ◌-◌, ◌<◌, ◌≡◌, sym, ap, ◌∙◌, subst, inl, inr, true, false, not, ◌||◌, List, [], ◌∷◌, ◌++◌,
  length, take, drop, drop_all, drop-append_left, drop-append_right, take-append-drop, take_all,
  length-drop, All, arith, append_assoc, append-nil, leb, ◌==◌, Bool-cases,
}
use aiofastnet.Buffer.{Buffer, unpack, IsBytewise}
use aiofastnet.Buffer.Tail.{unpack-maybe_copy, unpack-copy_tail}
use aiofastnet.Stream.Kernel.{Kernel, flatten}
use aiofastnet.Stream.State.{Stream, Request}
use aiofastnet.Stream.State.Core.{Core, core, core-maybe_pause, core-start_backlog_writing}
use aiofastnet.Stream.Write.{append_request}
use aiofastnet.Stream.Lines.{
  Flushed, flushed, broke, ranges, try_writelines, line_request, append_lines_tail, queue_lines,
  after_lines, lines_now, write_lines,
}
use aiofastnet.Stream.Lines.Groups.{NonEmpty, Sends, try_writelines-Sends}
use aiofastnet.Stream.Delivery.{pending_of, pending, total, IsReady, Good}
use aiofastnet.Stream.Delivery.Queue.{
  length-pending, queued, queued-Good, rewired-Good, Ledger-idle,
}
use aiofastnet.Stream.Delivery.Write.{handle_error-Good}

-- The bytes of the caller's buffers.
abbrev pub content : List Buffer → List ℕ
content bs = flatten (ranges bs)

content-cons : (b : Buffer) (bs : List Buffer) → content (b ∷ bs) ≡ unpack b ++ content bs
unfolding ranges flatten
content-cons b bs = elim (Bool-cases (length (unpack b) == 0)) [
  | inl none_left ↦
      let empty : unpack b ≡ [] = drop_all 0 (unpack b) (ground arith) in rw (none_left, empty)
  | inr some_left ↦ rw some_left
]

ranges-NonEmpty : (bs : List Buffer) → All NonEmpty (ranges bs)
unfolding ranges
ranges-NonEmpty [] = tt
ranges-NonEmpty (b ∷ bs) = ground (arith, ranges-NonEmpty bs)

-- The requests that `__append_lines_tail` queues when n bytes are sent.
line_requests : List Buffer → ℕ → List Request
line_requests [] n = []
line_requests (b ∷ bs) n = elim (leb (length (unpack b)) n) [
  | true ↦ line_requests bs (n - length (unpack b))
  | false ↦ line_request b n ∷ line_requests bs 0
]

abbrev extended : List Request → Core → Core
extended rs c = record c { backlog = c.backlog ++ rs; size = c.size + total rs }

extended-nil : (c : Core) → c ≡ extended [] c
extended-nil c = ground (arith, append-nil c.backlog)

extended-cons :
    (r : Request) (rs : List Request) (c : Core)
    → extended rs (extended (r ∷ []) c) ≡ extended (r ∷ rs) c
extended-cons r rs c = ground (arith, append_assoc c.backlog (r ∷ []) rs)

core-append_request :
    (r : Request) (s : Stream) → core (append_request r s) ≡ extended (r ∷ []) (core s)
unfolding append_request
core-append_request r s = ground arith

core-append_lines_tail :
    (bs : List Buffer) (n : ℕ) (s : Stream)
    → core (append_lines_tail bs n s) ≡ extended (line_requests bs n) (core s)
unfolding append_lines_tail line_requests
core-append_lines_tail [] n s = extended-nil (core s)
core-append_lines_tail (b ∷ bs) n s = elim (Bool-cases (leb (length (unpack b)) n)) [
  | inl sent ↦
      rw (sent, append_lines_tail, line_requests)
        (core-append_lines_tail bs (n - length (unpack b)) s)
  | inr rest ↦
      rw (rest, append_lines_tail, line_requests)
        (core-append_lines_tail bs 0 (append_request (line_request b n) s)
          ∙ ap (extended (line_requests bs 0)) (core-append_request (line_request b n) s)
          ∙ extended-cons (line_request b n) (line_requests bs 0) (core s))
]

pending_of-line_request :
    (b : Buffer) (n : ℕ)
    → IsBytewise b
    → n < length (unpack b)
    → pending_of (line_request b n) ≡ drop n (unpack b)
unfolding line_request
pending_of-line_request b n bytewise lt = elim (Bool-cases (n == 0)) [
  | inl start ↦ let zero_sent : n ≡ 0 = ground arith in rw (start, zero_sent) (unpack-maybe_copy b)
  | inr middle ↦ rw middle (unpack-copy_tail b n bytewise (omega arith))
]

pending-line_requests :
    (bs : List Buffer) (n : ℕ)
    → All IsBytewise bs
    → pending (line_requests bs n) ≡ drop n (content bs)
unfolding line_requests
pending-line_requests [] n h = unfold ranges flatten in sym (drop_all n [] (omega arith))
pending-line_requests (b ∷ bs) n (bytewise, h) = elim (Bool-cases (leb (length (unpack b)) n)) [
  | inl sent ↦
      rw
        (
          sent,
          line_requests,
          content-cons b bs,
          drop-append_right n (unpack b) (content bs) (ground arith),
        )
        (pending-line_requests bs (n - length (unpack b)) h)
  | inr rest ↦
      rw
        (
          rest,
          line_requests,
          content-cons b bs,
          drop-append_left n (unpack b) (content bs) (ground arith),
          pending_of-line_request b n bytewise (ground arith),
        )
        (ap (λ t. drop n (unpack b) ++ t) (pending-line_requests bs 0 h))
]

line_request-IsReady :
    (b : Buffer) (n : ℕ) → IsBytewise b → n < length (unpack b) → IsReady (line_request b n)
unfolding line_request
line_request-IsReady b n bytewise lt =
    omega (arith, ap length (pending_of-line_request b n bytewise lt), length-drop n (unpack b))

line_requests-IsReady :
    (bs : List Buffer) (n : ℕ) → All IsBytewise bs → All IsReady (line_requests bs n)
unfolding line_requests
line_requests-IsReady [] n h = tt
line_requests-IsReady (b ∷ bs) n (bytewise, h) = elim (Bool-cases (leb (length (unpack b)) n)) [
  | inl sent ↦ rw (sent, line_requests) (line_requests-IsReady bs (n - length (unpack b)) h)
  | inr rest ↦
      rw (rest, line_requests)
        (line_request-IsReady b n bytewise (ground arith), line_requests-IsReady bs 0 h)
]

core-queue_lines :
    (bs : List Buffer) (n : ℕ) (s : Stream)
    → core (queue_lines bs n s) ≡ queued (line_requests bs n) (core s)
unfolding queue_lines
core-queue_lines bs n s =
    core-maybe_pause _
    ∙ core-start_backlog_writing (append_lines_tail bs n s)
    ∙ ap {A = Core} {B = Core} (λ c. record c { registered = c.registered || not c.finalizing })
        (core-append_lines_tail bs n s)

-- What is not sent of the buffers is queued.
queue_lines-Good :
    (bs : List Buffer) (n : ℕ) (sub : List ℕ) (s : Stream)
    → All IsBytewise bs
    → s.finalizing_close ≡ false
    → s.write_backlog_size ≡ total s.write_backlog
    → All IsReady s.write_backlog
    → 0 < s.write_backlog_size + length (drop n (content bs))
    → s.kernel.wire ++ (pending s.write_backlog ++ drop n (content bs)) ≡ sub
    → Good sub (core (queue_lines bs n s))
queue_lines-Good bs n sub s bytewise live sized ready pos e =
    let tail = pending-line_requests bs n bytewise in
    let new = line_requests-IsReady bs n bytewise in
    subst (Good sub) (sym (core-queue_lines bs n s)) (
      queued-Good (line_requests bs n) sub (core s) live sized ready new
        (omega (arith, ap length tail, length-pending (line_requests bs n) new))
        (ap (λ t. s.kernel.wire ++ (pending s.write_backlog ++ t)) tail ∙ e))

-- The outcome of the first attempt.
after_lines-Good :
    (bs : List Buffer) (sub : List ℕ) (k : Kernel) (r : Flushed) (s : Stream)
    → All IsBytewise bs
    → Good sub (core s)
    → s.finalizing_close ≡ false
    → s.write_backlog_size ≡ 0
    → Sends (content bs) s.kernel.wire 0 (k, r)
    → Good (sub ++ content bs) (core (after_lines bs r (record s { kernel = k })))
after_lines-Good bs sub k (flushed true t) s bytewise g live idle (n, et, ew, le, done) =
    let (empty, all) = Ledger-idle sub (core s) g live idle in
    rewired-Good (sub ++ content bs) k.wire (core s) g.0 empty (
      ew
      ∙ ap (λ t. s.kernel.wire ++ t) (take_all n (content bs) (ground arith))
      ∙ ap (λ t. t ++ content bs) all)
after_lines-Good bs sub k (flushed false t) s bytewise g live idle (n, et, ew, le, done) =
    let (empty, all) = Ledger-idle sub (core s) g live idle in
    let same : t ≡ n = omega arith in
    rw same (
      queue_lines-Good bs n (sub ++ content bs) (record s { kernel = k }) bytewise live g.0.sized
        g.0.ready (ground (arith, length-drop n (content bs)))
        (rw (empty, ew, all)
          (append_assoc sub (take n (content bs)) (drop n (content bs))
            ∙ ap (λ t. sub ++ t) (take-append-drop n (content bs)))))
after_lines-Good bs sub k (broke e) s bytewise g live idle (n, ew) =
    let (empty, all) = Ledger-idle sub (core s) g live idle in
    handle_error-Good e (sub ++ content bs) (drop n (content bs)) (record s { kernel = k }) live
      (rw (ew, all)
        (append_assoc sub (take n (content bs)) (drop n (content bs))
          ∙ ap (λ t. sub ++ t) (take-append-drop n (content bs))))

-- Behind a queue all lines are queued.
lines_later-Good :
    (bs : List Buffer) (sub : List ℕ) (s : Stream)
    → All IsBytewise bs
    → Good sub (core s)
    → s.finalizing_close ≡ false
    → 0 < s.write_backlog_size
    → Good (sub ++ content bs) (core (queue_lines bs 0 s))
lines_later-Good bs sub s bytewise (inv, (rest, e, inl over)) live busy = absurd (cc)
lines_later-Good bs sub s bytewise (inv, (rest, e, inr same)) live busy =
    queue_lines-Good bs 0 (sub ++ content bs) s bytewise live inv.sized inv.ready (omega arith) (
      sym (append_assoc s.kernel.wire (pending s.write_backlog) (content bs))
      ∙ ap (λ t. t ++ content bs) (ap (λ t. s.kernel.wire ++ t) (sym same) ∙ e))

pub write_lines-Good :
    (bs : List Buffer) (sub : List ℕ) (s : Stream)
    → All IsBytewise bs
    → Good sub (core s)
    → s.finalizing_close ≡ false
    → Good (sub ++ content bs) (core (write_lines bs s))
unfolding write_lines lines_now
write_lines-Good bs sub s bytewise g live = elim (Bool-cases (s.write_backlog_size == 0)) [
  | inl idle ↦
      let (k, r) = try_writelines (ranges bs) s.kernel in
      rw idle (
        after_lines-Good bs sub k r s bytewise g live (ground arith)
          (try_writelines-Sends (ranges bs) s.kernel (ranges-NonEmpty bs)))
  | inr busy ↦ rw busy (lines_later-Good bs sub s bytewise g live (ground arith))
]
