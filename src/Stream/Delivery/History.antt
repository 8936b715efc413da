-- ===== src/Stream/Delivery/History.antt =====
-- Delivery over whole histories of calls (aiofastnet/transport.pyx).
use aiofastnet.Base.{
  if-cases, ℕ, ◌≡◌, refl, sym, ◌∙◌, subst, ◌⊎◌, inl, inr, Bool, true, false, not, ◌||◌, Option,
  none, some, List, [], ◌∷◌, ◌++◌, length, All, arith, append_assoc, append-nil, ◌==◌, Bool-cases,
  Option-cases, if◌then◌else◌,
}
use aiofastnet.Buffer.{unpack, IsBytewise}
use aiofastnet.Stream.Kernel.{Exc, runtime_error, not_implemented, Answer}
use aiofastnet.Stream.State.{
  init, write_request, SendFileRequest, Stream, maybe_pause, close, force_close,
}
use aiofastnet.Stream.State.Core.{
  Core, core, halted, core-maybe_pause, core-maybe_resume, core-force_close, core-close,
  core-finalize_close, core-call_connection_made,
}
use aiofastnet.Stream.Watermarks.{set_limits}
use aiofastnet.Stream.Write.{
  Reply, returned, raised, pre_write_check, count_closed_write, write_data, write_nocheck,
  write_now, enqueue, write_pointer_data, write_c,
}
use aiofastnet.Stream.Lines.{write_lines, writelines_nocheck}
use aiofastnet.Stream.Sendfile.{requested, start_made, make_sendfile_request, sendfile}
use aiofastnet.Stream.Drain.{write_ready, write_eof, write_eof_now}
use aiofastnet.Stream.Run.{
  Op, write, write_pointer, writelines, send_file, set_buffer_limits, write_eof_call, close_call,
  abort_call, connection_made_callback, write_ready_callback, finalize_callback,
  set_write_buffer_limits, step, run, accepts, accepted,
}
use aiofastnet.Stream.Delivery.{pending, IsConsistent, Good}
use aiofastnet.Stream.Delivery.Queue.{empty_backlog, halted-Good}
use aiofastnet.Stream.Delivery.Write.{write_data-Good, write_now-Good, write_later-Good, no_bytes}
use aiofastnet.Stream.Delivery.Lines.{content, write_lines-Good}
use aiofastnet.Stream.Delivery.Sendfile.{start_sendfile-Good, make_sendfile_request-Fits}
use aiofastnet.Stream.Delivery.Drain.{write_ready-Good}

-- No call passes a memoryview over bytes whose items are wider than a byte.
abbrev pub IsPlain : Op → Type 0
IsPlain (write b) = IsBytewise b
IsPlain (writelines bs) = All IsBytewise bs
IsPlain _ = Unit {0}

core-count_closed_write : (s : Stream) → core (count_closed_write s) ≡ core s
unfolding count_closed_write
core-count_closed_write s = ground arith

-- The guards of a write: its bytes are accepted exactly if its body runs.
pre_write_check-Good :
    (d sub : List ℕ) (body : Stream → Stream) (s : Stream)
    → Good sub (core s)
    → (s.finalizing_close ≡ false → Good (sub ++ d) (core (body s)))
    → Good
        (sub ++ (if not (s.write_eof_called || s.finalizing_close) then d else []))
        (core (pre_write_check body s).0)
unfolding pre_write_check
pre_write_check-Good d sub body s g h = guards s.write_eof_called s.finalizing_close refl
  where
    same : Good (sub ++ []) (core s)
    same = subst (λ t. Good t (core s)) (sym (append-nil sub)) g

    counted : Good (sub ++ []) (core (count_closed_write s))
    counted = subst (Good (sub ++ [])) (sym (core-count_closed_write s)) same

    guards :
        (eof over : Bool)
        → s.finalizing_close ≡ over
        → Good (sub ++ (if not (eof || over) then d else [])) (
            core
              (if◌then◌else◌ {A = Stream × Reply} eof
                (s, raised runtime_error)
                (if over then (count_closed_write s, returned) else (body s, returned))).0)
    guards true over e = same
    guards false true e = counted
    guards false false e = h e

close-Good : (sub : List ℕ) (s : Stream) → Good sub (core s) → Good sub (core (close s))
close-Good sub s g =
    subst (Good sub) (sym (core-close s))
      (if-cases (Good sub) s.closing _ _ (λ _. g) (λ open_still. closed open_still g))
  where
    closed :
        s.closing ≡ false
        → Good sub (core s)
        → Good sub (record (core s) {
          closing = true;
          finalizing = s.finalizing_close || (s.write_backlog_size == 0);
        })
    closed open_still (inv, (rest, e, t)) =
        let live : s.finalizing_close ≡ false = ground (arith, inv.ending) in
        (
          record {
            sized = inv.sized;
            ready = inv.ready;
            watching = inv.watching;
            ending = elim (Bool-cases (s.write_backlog_size == 0)) [
              | inl empty ↦
                  inr (refl, empty_backlog s.write_backlog inv.ready (sym inv.sized ∙ ground arith))
              | inr some_left ↦ inl (ground arith)
            ];
            busy = ground arith;
          },
          (rest, e, ground arith),
        )

force_close-Good :
    (sub : List ℕ) (exc : Option Exc) (s : Stream)
    → Good sub (core s)
    → Good sub (core (force_close exc s))
force_close-Good sub exc s (inv, (rest, e, t)) = subst (Good sub) (sym (core-force_close exc s)) (
    if-cases (Good sub) s.finalizing_close (core s) (halted (core s)) (λ _. (inv, (rest, e, t)))
      (λ _. halted-Good sub rest (core s) e))

write_eof_now-Good :
    (sub : List ℕ) (s : Stream) → Good sub (core s) → Good sub (core (write_eof_now s))
unfolding write_eof_now
write_eof_now-Good sub s g =
    if-cases (λ t. Good sub (core t)) s.is_socket _ (close s) (λ _. g) (λ _. close-Good sub s g)

write_eof-Good : (sub : List ℕ) (s : Stream) → Good sub (core s) → Good sub (core (write_eof s))
unfolding write_eof
write_eof-Good sub s g =
    let s1 : Stream = record s { write_eof_called = true } in
    if-cases (λ t. Good sub (core t)) (s.closing || s.write_eof_called) s _ (λ _. g)
      (λ _.
        if-cases (λ t. Good sub (core t)) (s.write_backlog_size == 0) (write_eof_now s1) s1
          (λ _. write_eof_now-Good sub s1 g) (λ _. g))

set_limits-Good :
    (high low : Option ℕ) (sub : List ℕ) (s : Stream)
    → Good sub (core s)
    → Good sub (core (set_write_buffer_limits high low s).0)
unfolding set_write_buffer_limits
set_limits-Good high low sub s g = elim (Option-cases (set_limits s.watermarks high low)) [
  | inl refused ↦ rw (refused, set_write_buffer_limits) g
  | inr (w, e) ↦
      rw (e, set_write_buffer_limits)
        (subst (Good sub)
          (sym (
            core-maybe_resume (maybe_pause (record s { watermarks = w }))
            ∙ core-maybe_pause (record s { watermarks = w })))
          g)
]

write_pointer_data-Good :
    (d sub : List ℕ) (s : Stream)
    → Good sub (core s)
    → s.finalizing_close ≡ false
    → Good (sub ++ d) (core (write_pointer_data d s))
unfolding write_pointer_data
write_pointer_data-Good d sub s g live =
    if-cases (λ t. Good (sub ++ d) (core t)) (length d == 0) s
      (if s.write_backlog_size == 0 then write_now none d s else enqueue (write_request d) s)
      (λ none_left. no_bytes sub d (core s) (ground arith) g)
      (λ some_left.
        if-cases (λ t. Good (sub ++ d) (core t)) (s.write_backlog_size == 0) (write_now none d s)
          (enqueue (write_request d) s)
          (λ idle. write_now-Good none d sub s tt (ground arith) g live (ground arith))
          (λ busy. write_later-Good d sub s (ground arith) g live))

start_made-Good :
    (file : List ℕ) (offset : ℕ) (count : Option ℕ) (o : Option SendFileRequest) (sub : List ℕ)
    (s : Stream)
    → make_sendfile_request file offset count ≡ o
    → Good sub (core s)
    → s.finalizing_close ≡ false
    → Good (sub ++ requested o) (core (start_made o s).0)
start_made-Good file offset count none sub s e g live =
    subst (λ t. Good t (core s)) (sym (append-nil sub)) g
start_made-Good file offset count (some r) sub s e g live =
    start_sendfile-Good r sub s (make_sendfile_request-Fits file offset count r e) g live

sendfile-Good :
    (file : List ℕ) (offset : ℕ) (count : Option ℕ) (sub : List ℕ) (s : Stream)
    → Good sub (core s)
    → Good (sub ++ accepts (send_file file offset count) s) (core (sendfile file offset count s).0)
unfolding sendfile
sendfile-Good file offset count sub s g =
    guards s.sendfile_compatible (s.write_eof_called || (s.closing || s.finalizing_close))
      (λ h. ground arith)
  where
    guards :
        (able refused : Bool)
        → (refused ≡ false → s.finalizing_close ≡ false)
        → Good
            (sub
              ++ (if (if able then not refused else false)
                  then requested (make_sendfile_request file offset count)
                  else []))
            (core
              (if◌then◌else◌ {A = Stream × Reply}
                (not able)
                (s, raised not_implemented)
                (if refused
                  then (s, raised runtime_error)
                  else start_made (make_sendfile_request file offset count) s)).0)
    guards false refused h = subst (λ t. Good t (core s)) (sym (append-nil sub)) g
    guards true true h = subst (λ t. Good t (core s)) (sym (append-nil sub)) g
    guards true false h =
        start_made-Good file offset count (make_sendfile_request file offset count) sub s refl g
          (h refl)

-- A call that brings no bytes.
nothing-Good :
    (b : Bool) (sub : List ℕ) (c : Core) → Good sub c → Good (sub ++ (if b then [] else [])) c
nothing-Good true sub c g = subst (λ t. Good t c) (sym (append-nil sub)) g
nothing-Good false sub c g = subst (λ t. Good t c) (sym (append-nil sub)) g

pub init-Good :
    (socket server able : Bool) (script : List Answer)
    → Good [] (core (init socket server able script))
unfolding init
init-Good socket server able script = (
  record { sized = refl; ready = tt; watching = refl; ending = inl refl; busy = inl refl },
  ([], refl, inr refl),
)

-- One call keeps the invariant, and appends what it accepts to the promised bytes.
pub step-Good :
    (op : Op) (sub : List ℕ) (s : Stream)
    → IsPlain op
    → Good sub (core s)
    → Good (sub ++ accepts op s) (core (step op s))
unfolding step write_nocheck write_c writelines_nocheck
step-Good (write b) sub s plain g =
    pre_write_check-Good (unpack b) sub (write_data b) s g (write_data-Good b sub s plain g)
step-Good (write_pointer d) sub s plain g =
    pre_write_check-Good d sub (write_pointer_data d) s g (write_pointer_data-Good d sub s g)
step-Good (writelines bs) sub s plain g =
    pre_write_check-Good (content bs) sub (write_lines bs) s g (write_lines-Good bs sub s plain g)
step-Good (send_file file offset count) sub s plain g = sendfile-Good file offset count sub s g
step-Good (set_buffer_limits high low) sub s plain g =
    nothing-Good _ sub _ (set_limits-Good high low sub s g)
step-Good write_eof_call sub s plain g = nothing-Good _ sub _ (write_eof-Good sub s g)
step-Good close_call sub s plain g = nothing-Good _ sub _ (close-Good sub s g)
step-Good abort_call sub s plain g = nothing-Good _ sub _ (force_close-Good sub none s g)
step-Good connection_made_callback sub s plain g =
    nothing-Good _ sub _ (subst (Good sub) (sym (core-call_connection_made s)) g)
step-Good write_ready_callback sub s plain g = nothing-Good _ sub _ (
    if-cases (λ t. Good sub (core t)) s.write_ready_registered (write_ready s) s
      (write_ready-Good sub s g) (λ _. g))
step-Good finalize_callback sub s plain g =
    nothing-Good _ sub _ (subst (Good sub) (sym (core-finalize_close s)) g)

pub run-Good :
    (ops : List Op) (sub : List ℕ) (s : Stream)
    → All IsPlain ops
    → Good sub (core s)
    → Good (sub ++ accepted ops s) (core (run ops s))
unfolding run accepted
run-Good [] sub s plain g = subst (λ t. Good t (core s)) (sym (append-nil sub)) g
run-Good (op ∷ ops) sub s plain g =
    subst (λ t. Good t (core (run ops (step op s))))
      (append_assoc sub (accepts op s) (accepted ops (step op s)))
      (run-Good ops (sub ++ accepts op s) (step op s) plain.1 (step-Good op sub s plain.0 g))

-- Over any history of calls on a new transport, none of which passes a memoryview over bytes with
-- wide items, the bytes on the wire are a front of the bytes that the transport accepted, in
-- order; and until it is torn down the others are exactly those that are queued.
pub run_delivers :
    (ops : List Op) (socket server able : Bool) (script : List Answer)
    → All IsPlain ops
    → let s = init socket server able script in
      (rest : List ℕ) × ((run ops s).kernel.wire ++ rest ≡ accepted ops s)
      × (((run ops s).finalizing_close ≡ true) ⊎ (rest ≡ pending (run ops s).write_backlog))
run_delivers ops socket server able script plain =
    (run-Good ops [] (init socket server able script) plain (init-Good socket server able script)).1

-- Over any history of calls on a new transport, none of which passes a memoryview over bytes with
-- wide items, the counter is the size of the backlog, every queued request has bytes to send, the
-- socket is watched exactly while something is queued, a transport that is torn down is closing and
-- has nothing queued, and one that is closing is torn down or still has bytes to send.
pub run-IsConsistent :
    (ops : List Op) (socket server able : Bool) (script : List Answer)
    → All IsPlain ops
    → IsConsistent (core (run ops (init socket server able script)))
run-IsConsistent ops socket server able script plain =
    (run-Good ops [] (init socket server able script) plain (init-Good socket server able script)).0
