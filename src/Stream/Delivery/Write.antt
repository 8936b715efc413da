-- ===== src/Stream/Delivery/Write.antt =====
-- A write delivers its bytes behind those that were written before (aiofastnet/transport.pyx).
use aiofastnet.Base.{
  ℕ, ◌-◌, ◌≤◌, ◌<◌, ◌≡◌, refl, sym, ap, ◌∙◌, subst, inl, inr, false, Option, none, some, List, [],
  ◌∷◌, ◌++◌, length, take, drop, take-append-drop, length-drop, All, arith, append_assoc,
  append-nil, ◌==◌, Bool-cases,
}
use aiofastnet.Buffer.{Buffer, unpack, copy_tail, IsBytewise}
use aiofastnet.Buffer.Tail.{unpack-maybe_copy, unpack-copy_tail}
use aiofastnet.Stream.Delivery.Queue.{request_size-pos}
use aiofastnet.Base.{if◌then◌else◌}
use aiofastnet.Base.{inl, inr, ◌==◌, Bool-cases, take_all}
use aiofastnet.Stream.Delivery.Queue.{rewired-Good}
use aiofastnet.Stream.Kernel.{Exc, Kernel, Sent, sent, again, failed, aiofn_write}
use aiofastnet.Stream.Kernel.Wire.{Writes, aiofn_write-Writes}
use aiofastnet.Stream.State.{Stream, Request, write_request, handle_error}
use aiofastnet.Stream.State.Core.{
  Core, core, halted, core-maybe_pause, core-start_backlog_writing, core-handle_error,
}
use aiofastnet.Stream.Write.{
  keep_tail, after_write, try_write, append_request, enqueue, after_try, write_now, write_data,
}
use aiofastnet.Stream.Delivery.{pending_of, pending, total, IsReady, Good}
use aiofastnet.Stream.Delivery.Queue.{halted-Good, queued, queued-Good, Ledger-idle}

pub core-enqueue : (r : Request) (s : Stream) → core (enqueue r s) ≡ queued (r ∷ []) (core s)
unfolding enqueue append_request
core-enqueue r s =
    core-maybe_pause _ ∙ core-start_backlog_writing (append_request r s) ∙ ground arith

-- Where the owner of the bytes is known, it is a buffer of these bytes, one byte an item.
abbrev pub Owns : Option Buffer → List ℕ → Type 0
Owns none d = Unit {0}
Owns (some b) d = IsBytewise b × (unpack b ≡ d)

keep_tail-pending :
    (owner : Option Buffer) (d : List ℕ) (n : ℕ)
    → Owns owner d
    → n ≤ length d
    → pending_of (keep_tail owner (drop n d) (length d - n)) ≡ drop n d
keep_tail-pending none d n o le = refl
keep_tail-pending (some b) d n (bytewise, e) le =
    subst (λ t. unpack (copy_tail b (drop n t) (length t - n)) ≡ drop n t) e
      (unpack-copy_tail b n bytewise (subst (λ t. n ≤ length t) (sym e) le))

pub handle_error-Good :
    (e : Exc) (sub rest : List ℕ) (s : Stream)
    → s.finalizing_close ≡ false
    → s.kernel.wire ++ rest ≡ sub
    → Good sub (core (handle_error e s))
handle_error-Good e sub rest s live h =
    subst (Good sub)
      (sym (core-handle_error e s ∙ ap (λ b. if b then core s else halted (core s)) live))
      (halted-Good sub rest (core s) h)

pub enqueue-Good :
    (r : Request) (sub : List ℕ) (s : Stream)
    → s.finalizing_close ≡ false
    → s.write_backlog_size ≡ total s.write_backlog
    → All IsReady s.write_backlog
    → IsReady r
    → s.kernel.wire ++ (pending s.write_backlog ++ pending_of r) ≡ sub
    → Good sub (core (enqueue r s))
enqueue-Good r sub s live sized ready new h = subst (Good sub) (sym (core-enqueue r s)) (
    queued-Good (r ∷ []) sub (core s) live sized ready (new, tt)
      (omega (arith, request_size-pos r new))
      (ap (λ t. s.kernel.wire ++ (pending s.write_backlog ++ t)) (append-nil (pending_of r)) ∙ h))

-- The rest of a partly sent write is queued.
keep_tail-Good :
    (owner : Option Buffer) (d sub : List ℕ) (n : ℕ) (k : Kernel) (s : Stream)
    → Owns owner d
    → n < length d
    → Good sub (core s)
    → s.finalizing_close ≡ false
    → s.write_backlog_size ≡ 0
    → k.wire ≡ s.kernel.wire ++ take n d
    → Good
        (sub ++ d)
        (core (enqueue (keep_tail owner (drop n d) (length d - n)) (record s { kernel = k })))
keep_tail-Good owner d sub n k s o lt g live idle w =
    let (empty, all) = Ledger-idle sub (core s) g live idle in
    let tail : pending_of (keep_tail owner (drop n d) (length d - n)) ≡ drop n d =
      keep_tail-pending owner d n o (omega arith) in
    enqueue-Good (keep_tail owner (drop n d) (length d - n)) (sub ++ d) (record s { kernel = k })
      live g.0.sized g.0.ready (keep_tail-IsReady owner tail)
      (rw (empty, tail, w, all)
        (append_assoc sub (take n d) (drop n d) ∙ ap (λ t. sub ++ t) (take-append-drop n d)))
  where
    keep_tail-IsReady :
        (owner : Option Buffer)
        → pending_of (keep_tail owner (drop n d) (length d - n)) ≡ drop n d
        → IsReady (keep_tail owner (drop n d) (length d - n))
    keep_tail-IsReady none e = omega (arith, length-drop n d)
    keep_tail-IsReady (some b) e = omega (arith, ap length e, length-drop n d)

-- The outcome of a first attempt, by what the system answered.
after_try-Good :
    (owner : Option Buffer) (d sub : List ℕ) (k : Kernel) (r : Sent) (s : Stream)
    → Owns owner d
    → 0 < length d
    → Good sub (core s)
    → s.finalizing_close ≡ false
    → s.write_backlog_size ≡ 0
    → Writes d s.kernel.wire (k, r)
    → Good (sub ++ d) (core (after_try (after_write owner d r) (record s { kernel = k })))
after_try-Good owner d sub k (failed e) s o pos g live idle w =
    let (empty, all) = Ledger-idle sub (core s) g live idle in
    handle_error-Good e (sub ++ d) d (record s { kernel = k }) live (rw (w, all))
after_try-Good owner d sub k again s o pos g live idle w =
    let whole : length d - 0 ≡ length d = omega arith in
    subst (λ m. Good (sub ++ d) (core (enqueue (keep_tail owner d m) (record s { kernel = k }))))
      whole
      (keep_tail-Good owner d sub 0 k s o pos g live idle (w ∙ sym (append-nil s.kernel.wire)))
after_try-Good owner d sub k (sent n) s o pos g live idle (w, lo, hi) =
    elim (Bool-cases (n == length d)) [
      | inl whole ↦
          let (empty, all) = Ledger-idle sub (core s) g live idle in
          rw whole (
            rewired-Good (sub ++ d) k.wire (core s) g.0 empty (
              w
              ∙ ap (λ t. s.kernel.wire ++ t) (take_all n d (ground arith))
              ∙ ap (λ t. t ++ d) all))
      | inr part ↦ rw part (keep_tail-Good owner d sub n k s o (ground arith) g live idle w)
    ]

-- A first attempt to send delivers the bytes: on the wire, queued, or lost with the transport.
pub write_now-Good :
    (owner : Option Buffer) (d sub : List ℕ) (s : Stream)
    → Owns owner d
    → 0 < length d
    → Good sub (core s)
    → s.finalizing_close ≡ false
    → s.write_backlog_size ≡ 0
    → Good (sub ++ d) (core (write_now owner d s))
unfolding write_now try_write
write_now-Good owner d sub s o pos g live idle =
    let (k, r) = aiofn_write d s.kernel in
    after_try-Good owner d sub k r s o pos g live idle (aiofn_write-Writes d s.kernel)

-- Behind a queue the bytes are queued.
pub write_later-Good :
    (d sub : List ℕ) (s : Stream)
    → 0 < length d
    → Good sub (core s)
    → s.finalizing_close ≡ false
    → Good (sub ++ d) (core (enqueue (write_request d) s))
write_later-Good d sub s pos (inv, (rest, e, inl over)) live = absurd (cc)
write_later-Good d sub s pos (inv, (rest, e, inr same)) live =
    enqueue-Good (write_request d) (sub ++ d) s live inv.sized inv.ready pos (
      sym (append_assoc s.kernel.wire (pending s.write_backlog) d)
      ∙ ap (λ t. t ++ d) (ap (λ t. s.kernel.wire ++ t) (sym same) ∙ e))

-- An empty write changes nothing.
pub no_bytes : (sub d : List ℕ) (c : Core) → length d ≡ 0 → Good sub c → Good (sub ++ d) c
no_bytes sub [] c e g = subst (λ t. Good t c) (sym (append-nil sub)) g
no_bytes sub (x ∷ d) c e g = absurd (omega arith)

pub write_data-Good :
    (b : Buffer) (sub : List ℕ) (s : Stream)
    → IsBytewise b
    → Good sub (core s)
    → s.finalizing_close ≡ false
    → Good (sub ++ unpack b) (core (write_data b s))
unfolding write_data
write_data-Good b sub s bytewise g live = elim (Bool-cases (s.write_backlog_size == 0)) [
  | inl idle ↦ elim (Bool-cases (length (unpack b) == 0)) [
    | inl none_left ↦ rw (idle, none_left) (no_bytes sub (unpack b) (core s) (ground arith) g)
    | inr some_left ↦
        rw (idle, some_left)
          (write_now-Good (some b) (unpack b) sub s (bytewise, refl) (ground arith) g live
            (ground arith))
  ]
  | inr busy ↦ elim (Bool-cases (length (unpack b) == 0)) [
    | inl none_left ↦
        rw (busy, unpack-maybe_copy b, none_left)
          (no_bytes sub (unpack b) (core s) (ground arith) g)
    | inr some_left ↦
        rw (busy, unpack-maybe_copy b, some_left)
          (write_later-Good (unpack b) sub s (ground arith) g live)
  ]
]
