-- ===== src/Stream/Delivery/Queue.antt =====
-- Queueing requests, and tearing down (aiofastnet/transport.pyx).
use aiofastnet.Base.{
  ℕ, ◌+◌, ◌<◌, ◌≡◌, refl, sym, ap, ◌∙◌, inl, inr, false, not, ◌||◌, List, [], ◌∷◌, ◌++◌, length,
  drop, All, arith, append_assoc, append-nil, length-append, length-take, length-drop,
}
use aiofastnet.Stream.State.{Request, write_request, sendfile_request, request_size}
use aiofastnet.Stream.State.Core.{Core, halted}
use aiofastnet.Stream.Delivery.{pending_of, pending, total, IsReady, IsConsistent, Good}

pub pending-append : (rs qs : List Request) → pending (rs ++ qs) ≡ pending rs ++ pending qs
pending-append [] qs = refl
pending-append (r ∷ rs) qs =
    rw (pending-append rs qs) (sym (append_assoc (pending_of r) (pending rs) (pending qs)))

pub total-append : (rs qs : List Request) → total (rs ++ qs) ≡ total rs + total qs
total-append [] qs = omega arith
total-append (r ∷ rs) qs = omega (arith, total-append rs qs)

pub All-append : (rs qs : List Request) → All IsReady rs → All IsReady qs → All IsReady (rs ++ qs)
All-append [] qs h k = k
All-append (r ∷ rs) qs h k = (h.0, All-append rs qs h.1 k)

-- A ready request has as many bytes as its size says, at least one.
pub length-pending_of : (r : Request) → IsReady r → length (pending_of r) ≡ request_size r
length-pending_of (write_request d) h = refl
length-pending_of (sendfile_request r) h =
    omega (arith, length-take r.count (drop r.offset r.file), length-drop r.offset r.file)

pub request_size-pos : (r : Request) → IsReady r → 0 < request_size r
request_size-pos (write_request d) h = h
request_size-pos (sendfile_request r) h = h.0

pub length-pending : (rs : List Request) → All IsReady rs → length (pending rs) ≡ total rs
length-pending [] h = refl
length-pending (r ∷ rs) h = omega (
  arith,
  length-append (pending_of r) (pending rs),
  length-pending_of r h.0,
  length-pending rs h.1,
)

-- Nothing counted, nothing queued.
pub empty_backlog : (rs : List Request) → All IsReady rs → total rs ≡ 0 → rs ≡ []
empty_backlog [] h e = refl
empty_backlog (r ∷ rs) h e = absurd (omega (arith, request_size-pos r h.0))

pub halted-IsConsistent : (c : Core) → IsConsistent (halted c)
halted-IsConsistent c = record {
  sized = refl;
  ready = tt;
  watching = refl;
  ending = inr (refl, refl);
  busy = inr (inl refl);
}

pub halted-Good : (sub rest : List ℕ) (c : Core) → c.wire ++ rest ≡ sub → Good sub (halted c)
halted-Good sub rest c e = (halted-IsConsistent c, (rest, e, inl refl))

-- The state after requests were queued and the socket is watched.
abbrev pub queued : List Request → Core → Core
queued rs c = record c {
  backlog = c.backlog ++ rs;
  size = c.size + total rs;
  registered = c.registered || not c.finalizing;
}

pub queued-Good :
    (rs : List Request) (sub : List ℕ) (c : Core)
    → c.finalizing ≡ false
    → c.size ≡ total c.backlog
    → All IsReady c.backlog
    → All IsReady rs
    → 0 < c.size + total rs
    → c.wire ++ (pending c.backlog ++ pending rs) ≡ sub
    → Good sub (queued rs c)
queued-Good rs sub c live sized ready new some_size e = (
  record {
    sized = omega (arith, total-append c.backlog rs);
    ready = All-append c.backlog rs ready new;
    watching = ground arith;
    ending = inl live;
    busy = inr (inr some_size);
  },
  (pending (c.backlog ++ rs), rw (pending-append c.backlog rs) e, inr refl),
)

-- What a live transport with nothing queued has promised is on the wire.
pub Ledger-idle :
    (sub : List ℕ) (c : Core)
    → Good sub c
    → c.finalizing ≡ false
    → c.size ≡ 0
    → (c.backlog ≡ []) × (c.wire ≡ sub)
Ledger-idle sub c (inv, (rest, e, inl over)) live idle = absurd (cc)
Ledger-idle sub c (inv, (rest, e, inr same)) live idle =
    let empty : c.backlog ≡ [] = empty_backlog c.backlog inv.ready (sym inv.sized ∙ idle) in
    (empty, sym (append-nil c.wire) ∙ ap (λ t. c.wire ++ t) (sym (same ∙ ap pending empty)) ∙ e)

-- The invariant does not look at the wire.
pub IsConsistent-wire :
    (c : Core) (w : List ℕ) → IsConsistent c → IsConsistent (record c { wire = w })
IsConsistent-wire c w h = record {
  sized = h.sized;
  ready = h.ready;
  watching = h.watching;
  ending = h.ending;
  busy = h.busy;
}

pub rewired-Good :
    (sub w : List ℕ) (c : Core)
    → IsConsistent c
    → c.backlog ≡ []
    → w ≡ sub
    → Good sub (record c { wire = w })
rewired-Good sub w c h empty e =
    (IsConsistent-wire c w h, ([], append-nil w ∙ e, inr (sym (ap pending empty))))
