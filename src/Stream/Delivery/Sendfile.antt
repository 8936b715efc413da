-- ===== src/Stream/Delivery/Sendfile.antt =====
-- A file transfer delivers its part of the file (aiofastnet/transport.pyx).

use aiofastnet.Base.{
  ℕ, ◌+◌, ◌-◌, ◌≤◌, ◌<◌, ◌≡◌, refl, sym, ap, ◌∙◌, subst, ◌⊎◌, inl, inr, true, false, Option, none,
  some, List, [], ◌∷◌, ◌++◌, length, take, drop, drop-take, drop-drop, take-append-drop,
  length-take, length-drop, All, arith, append_assoc, append-nil, ◌==◌, Bool-cases,
}
use aiofastnet.Stream.Kernel.{Kernel, Answer, takes, would_block, interrupted, fails}
use aiofastnet.Stream.State.{Stream, sendfile_request, SendFileRequest}
use aiofastnet.Stream.State.Core.{core, core-maybe_pause, core-start_backlog_writing}
use aiofastnet.Stream.Write.{append_request}
use aiofastnet.Stream.Sendfile.{
  remaining, make_sendfile_request, Transferred, complete, broke, advance, takes_of,
  sendfile_script, try_sendfile, enqueue_sendfile, after_sendfile, start_sendfile,
}
use aiofastnet.Stream.Delivery.{pending, total, IsReady, Good}
use aiofastnet.Stream.Delivery.Queue.{queued, queued-Good, rewired-Good, Ledger-idle}
use aiofastnet.Stream.Delivery.Write.{handle_error-Good}

-- The part of the file lies inside the file.
abbrev pub Fits : SendFileRequest → Type 0
Fits r = r.offset + r.count ≤ length r.file

pub length-remaining : (r : SendFileRequest) → Fits r → length (remaining r) ≡ r.count
length-remaining r h =
    omega (arith, length-take r.count (drop r.offset r.file), length-drop r.offset r.file)

-- `True` says that nothing is left, `False` that something is.
abbrev pub Ends : Transferred → SendFileRequest → Type 0
Ends (complete b) r = b ≡ (r.count == 0)
Ends (broke e) r = Unit {0}

-- What went to the wire and what is left make up what there was to send.
abbrev pub Transfers : SendFileRequest → List ℕ → SendFileRequest × Kernel × Transferred → Type 0
Transfers r wire (r', k, t) =
    (k.wire ++ remaining r' ≡ wire ++ remaining r)
    × Fits r'
    × (r'.waiter ≡ r.waiter)
    × (r'.count ≤ r.count)
    × Ends t r'

remaining-advance :
    (n : ℕ) (r : SendFileRequest)
    → 0 < n
    → n ≤ r.count
    → remaining (advance n r) ≡ drop n (remaining r)
remaining-advance n r pos le =
    let some_bytes : (n == 0) ≡ false = ground arith in
    rw (some_bytes, drop-take n r.count (drop r.offset r.file) le, drop-drop r.offset n r.file)

Transfers-trans :
    (r r' : SendFileRequest) (wire wire' : List ℕ) (o : SendFileRequest × Kernel × Transferred)
    → wire' ++ remaining r' ≡ wire ++ remaining r
    → r'.waiter ≡ r.waiter
    → r'.count ≤ r.count
    → Transfers r' wire' o
    → Transfers r wire o
Transfers-trans r r' wire wire' (r2, k, t) e w le (e2, f2, w2, le2, end) =
    (e2 ∙ e, f2, w2 ∙ w, omega arith, end)

sendfile_script-Transfers :
    (r : SendFileRequest) (wire : List ℕ) (script : List Answer)
    → Fits r
    → Transfers r wire (sendfile_script r wire script)
unfolding sendfile_script
sendfile_script-Transfers r wire [] f = (refl, f, refl, omega arith, refl)
sendfile_script-Transfers r wire (takes n ∷ script) f = elim (Bool-cases (r.count == 0)) [
  | inl done ↦ rw (done, sendfile_script) (refl, f, refl, omega arith, sym done)
  | inr more ↦
      let m = takes_of n r in
      let pos : 0 < m = ground (arith, length-remaining r f) in
      let le : m ≤ r.count = omega (arith, length-remaining r f) in
      let step : advance m r ≡ record r { offset = r.offset + m; count = r.count - m } =
        ground arith in
      rw (more, sendfile_script)
        (Transfers-trans r (advance m r) wire (wire ++ take m (remaining r))
          (sendfile_script (advance m r) (wire ++ take m (remaining r)) script)
          (rw (remaining-advance m r pos le) (
            append_assoc wire (take m (remaining r)) (drop m (remaining r))
            ∙ ap (λ t. wire ++ t) (take-append-drop m (remaining r))))
          (rw step) (rw step (omega arith))
          (sendfile_script-Transfers (advance m r) (wire ++ take m (remaining r)) script
            (rw step (omega arith))))
]
sendfile_script-Transfers r wire (would_block ∷ script) f = elim (Bool-cases (r.count == 0)) [
  | inl done ↦ rw done (refl, f, refl, omega arith, sym done)
  | inr more ↦ rw more (refl, f, refl, omega arith, sym more)
]
sendfile_script-Transfers r wire (interrupted ∷ script) f = elim (Bool-cases (r.count == 0)) [
  | inl done ↦ rw (done, sendfile_script) (refl, f, refl, omega arith, sym done)
  | inr more ↦ rw (more, sendfile_script) (sendfile_script-Transfers r wire script f)
]
sendfile_script-Transfers r wire (fails e ∷ script) f = elim (Bool-cases (r.count == 0)) [
  | inl done ↦ rw done (refl, f, refl, omega arith, sym done)
  | inr more ↦ rw more (refl, f, refl, omega arith, tt)
]

-- However the system splits, delays or breaks a transfer, no byte of the file is skipped or sent
-- twice.
pub try_sendfile-Transfers :
    (r : SendFileRequest) (k : Kernel) → Fits r → Transfers r k.wire (try_sendfile r k)
unfolding try_sendfile
try_sendfile-Transfers r k f = sendfile_script-Transfers r k.wire k.script f

core-enqueue_sendfile :
    (r : SendFileRequest) (s : Stream)
    → core (enqueue_sendfile r s).0
      ≡ queued (sendfile_request (record r { waiter = some s.next_waiter }) ∷ []) (core s)
unfolding enqueue_sendfile append_request
core-enqueue_sendfile r s =
    core-maybe_pause _
    ∙ core-start_backlog_writing (
        append_request (sendfile_request (record r { waiter = some s.next_waiter }))
          (record s { next_waiter = s.next_waiter + 1 }))
    ∙ ground arith

enqueue_sendfile-Good :
    (r : SendFileRequest) (sub : List ℕ) (s : Stream)
    → Fits r
    → 0 < r.count
    → s.finalizing_close ≡ false
    → s.write_backlog_size ≡ total s.write_backlog
    → All IsReady s.write_backlog
    → s.kernel.wire ++ (pending s.write_backlog ++ remaining r) ≡ sub
    → Good sub (core (enqueue_sendfile r s).0)
enqueue_sendfile-Good r sub s f pos live sized ready h =
    subst (Good sub) (sym (core-enqueue_sendfile r s)) (
      queued-Good (sendfile_request (record r { waiter = some s.next_waiter }) ∷ []) sub (core s)
        live sized ready ((pos, f, refl), tt) (omega arith)
        (ap (λ t. s.kernel.wire ++ (pending s.write_backlog ++ t)) (append-nil (remaining r)) ∙ h))

pub no_remaining : (r : SendFileRequest) → r.count ≡ 0 → remaining r ≡ []
no_remaining r e = ap (λ c. take c (drop r.offset r.file)) e

after_sendfile-Good :
    (r : SendFileRequest) (sub : List ℕ) (o : SendFileRequest × Kernel × Transferred) (s : Stream)
    → Good sub (core s)
    → s.finalizing_close ≡ false
    → s.write_backlog_size ≡ 0
    → Transfers r s.kernel.wire o
    → Good (sub ++ remaining r) (core (after_sendfile s o).0)
after_sendfile-Good r sub (r', k, complete true) s g live idle (e, f, w, le, end) =
    let (empty, all) = Ledger-idle sub (core s) g live idle in
    let none_left = no_remaining r' (ground arith) in
    rewired-Good (sub ++ remaining r) k.wire (core s) g.0 empty (
      sym (append-nil k.wire)
      ∙ ap (λ t. k.wire ++ t) (sym none_left)
      ∙ e
      ∙ ap (λ t. t ++ remaining r) all)
after_sendfile-Good r sub (r', k, complete false) s g live idle (e, f, w, le, end) =
    let (empty, all) = Ledger-idle sub (core s) g live idle in
    enqueue_sendfile-Good r' (sub ++ remaining r) (record s { kernel = k }) f (ground arith) live
      g.0.sized g.0.ready (rw empty (e ∙ ap (λ t. t ++ remaining r) all))
after_sendfile-Good r sub (r', k, broke x) s g live idle (e, f, w, le, end) =
    let (empty, all) = Ledger-idle sub (core s) g live idle in
    handle_error-Good x (sub ++ remaining r) (remaining r') (record s { kernel = k }) live
      (e ∙ ap (λ t. t ++ remaining r) all)

-- Behind a queue the transfer is queued.
sendfile_later-Good :
    (r : SendFileRequest) (sub : List ℕ) (s : Stream)
    → Fits r
    → 0 < r.count
    → Good sub (core s)
    → s.finalizing_close ≡ false
    → Good (sub ++ remaining r) (core (enqueue_sendfile r s).0)
sendfile_later-Good r sub s f pos (inv, (rest, e, inl over)) live = absurd (cc)
sendfile_later-Good r sub s f pos (inv, (rest, e, inr same)) live =
    enqueue_sendfile-Good r (sub ++ remaining r) s f pos live inv.sized inv.ready (
      sym (append_assoc s.kernel.wire (pending s.write_backlog) (remaining r))
      ∙ ap (λ t. t ++ remaining r) (ap (λ t. s.kernel.wire ++ t) (sym same) ∙ e))

pub start_sendfile-Good :
    (r : SendFileRequest) (sub : List ℕ) (s : Stream)
    → (r.count ≡ 0) ⊎ Fits r
    → Good sub (core s)
    → s.finalizing_close ≡ false
    → Good (sub ++ remaining r) (core (start_sendfile r s).0)
unfolding start_sendfile
start_sendfile-Good r sub s (inl e) g live = rw (e, append-nil sub) g
start_sendfile-Good r sub s (inr f) g live = elim (Bool-cases (r.count == 0)) [
  | inl nothing ↦ rw nothing (
      subst (λ t. Good t (core s))
        (sym (append-nil sub) ∙ ap (λ t. sub ++ t) (sym (no_remaining r (ground arith)))) g)
  | inr something ↦ elim (Bool-cases (s.write_backlog_size == 0)) [
    | inl idle ↦
        rw (something, idle)
          (after_sendfile-Good r sub (try_sendfile r s.kernel) s g live (ground arith)
            (try_sendfile-Transfers r s.kernel f))
    | inr busy ↦ rw (something, busy) (sendfile_later-Good r sub s f (ground arith) g live)
  ]
]

-- A request lies inside its file when it is made; an offset past the end leaves nothing to send.
pub make_sendfile_request-Fits :
    (file : List ℕ) (offset : ℕ) (count : Option ℕ) (r : SendFileRequest)
    → make_sendfile_request file offset count ≡ some r
    → (r.count ≡ 0) ⊎ Fits r
unfolding make_sendfile_request
make_sendfile_request-Fits file offset none r e = ground arith
make_sendfile_request-Fits file offset (some c) r e = ground arith
