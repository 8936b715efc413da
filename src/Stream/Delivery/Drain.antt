-- ===== src/Stream/Delivery/Drain.antt =====
-- Draining the backlog keeps the order of the bytes, and ends (aiofastnet/transport.pyx,
-- `_write_ready`).
use aiofastnet.Base.{
  if-cases, ◌⊎◌, ℕ, zero, suc, ◌<◌, ◌≡◌, refl, sym, ap, ◌∙◌, subst, inl, inr, Bool, true, false,
  not, ◌&&◌, ◌||◌, none, some, List, [], ◌++◌, length, arith, ◌==◌, Bool-cases,
}
use aiofastnet.Stream.State.{Stream, Request, maybe_resume}
use aiofastnet.Stream.State.Core.{Core, core, core-maybe_resume}
use aiofastnet.Stream.Drain.{
  Round, went, broke, round, Drained, after_round, drain, when_empty, after_drain, finish_drain,
  write_ready,
}
use aiofastnet.Stream.Delivery.{pending, Good}
use aiofastnet.Stream.Delivery.Queue.{empty_backlog}
use aiofastnet.Stream.Delivery.Write.{handle_error-Good}
use aiofastnet.Stream.Delivery.Rounds.{Flowing, Rounds, round-Rounds}

-- The loop ends within its fuel; until something is raised every byte stays accounted for.
abbrev pub Drains : List ℕ → Bool → Drained → Type 0
Drains sub cl none = ⊥
Drains sub cl (some (s, none)) = Flowing sub cl (core s)
Drains sub cl (some (s, some e)) =
    (s.finalizing_close ≡ false) × (rest : List ℕ) × (s.kernel.wire ++ rest ≡ sub)

after_round-Drains :
    (sub : List ℕ) (cl : Bool) (q : List Request) (rest : Stream → Drained) (o : Stream × Round)
    → Rounds sub cl q o
    → ((t : Stream)
        → Flowing sub cl (core t)
        → length t.write_backlog < length q
        → Drains sub cl (rest t))
    → Drains sub cl (after_round rest o)
after_round-Drains sub cl q rest (t, went true) h next = next t h.0 h.1
after_round-Drains sub cl q rest (t, went false) h next = h
after_round-Drains sub cl q rest (t, broke e) h next = h

pub drain-Drains :
    (sub : List ℕ) (cl : Bool) (fuel : ℕ) (s : Stream)
    → Flowing sub cl (core s)
    → length s.write_backlog < fuel
    → Drains sub cl (drain fuel s)
unfolding drain
drain-Drains sub cl zero s f lt = absurd (omega arith)
drain-Drains sub cl (suc fuel) s f lt = elim (Bool-cases (s.write_backlog_size == 0)) [
  | inl empty ↦ rw (empty, drain) f
  | inr some_left ↦
      rw (some_left, drain)
        (after_round-Drains sub cl s.write_backlog (λ t. drain fuel t) (round s.write_backlog s)
          (round-Rounds sub cl s.write_backlog s f refl (ground arith))
          (λ t ft less. drain-Drains sub cl fuel t ft (omega arith)))
]

core-when_empty :
    (s : Stream)
    → s.finalizing_close ≡ false
    → s.write_backlog_size ≡ 0
    → core (when_empty s) ≡ record (core s) {
      registered = false;
      closing = s.closing || (s.write_eof_called && not s.is_socket);
      finalizing = s.closing || (s.write_eof_called && not s.is_socket);
    }
unfolding when_empty
core-when_empty s live empty = ground arith

-- Everything was sent: the transport stays open, or its end is scheduled.
idle-Good :
    (sub : List ℕ) (cl over : Bool) (c : Core)
    → Flowing sub cl c
    → c.size ≡ 0
    → Good sub (record c { registered = false; closing = over; finalizing = over })
idle-Good sub cl over c f none_left =
    let empty : c.backlog ≡ [] = empty_backlog c.backlog f.ready (sym f.sized ∙ none_left) in
    (
      record {
        sized = f.sized;
        ready = f.ready;
        watching = ground arith;
        ending = either over empty;
        busy = settled over;
      },
      (pending c.backlog, f.whole, inr refl),
    )
  where
    either : (b : Bool) → c.backlog ≡ [] → (b ≡ false) ⊎ ((b ≡ true) × (c.backlog ≡ []))
    either true e = inr (refl, e)
    either false e = inl refl

    settled : (b : Bool) → (b ≡ false) ⊎ (b ≡ true) ⊎ (0 < c.size)
    settled true = inr (inl refl)
    settled false = inl refl

-- Something is left: the socket stays watched.
waiting-Good : (sub : List ℕ) (cl : Bool) (c : Core) → Flowing sub cl c → 0 < c.size → Good sub c
waiting-Good sub cl c f some_left = (
  record {
    sized = f.sized;
    ready = f.ready;
    watching = ground (arith, f.watched);
    ending = inl f.live;
    busy = inr (inr some_left);
  },
  (pending c.backlog, f.whole, inr refl),
)

after_drain-Good :
    (sub : List ℕ) (cl : Bool) (s : Stream)
    → Flowing sub cl (core s)
    → Good sub (core (after_drain s))
unfolding after_drain
after_drain-Good sub cl s f =
    let t = maybe_resume s in
    let ft : Flowing sub cl (core t) = subst (Flowing sub cl) (sym (core-maybe_resume s)) f in
    elim (Bool-cases (t.write_backlog_size == 0)) [
      | inl empty ↦ rw empty (
          subst (Good sub) (sym (core-when_empty t ft.live (ground arith))) (
            idle-Good sub cl (t.closing || (t.write_eof_called && not t.is_socket)) (core t) ft
              (ground arith)))
      | inr some_left ↦ rw some_left (waiting-Good sub cl (core t) ft (ground arith))
    ]

finish_drain-Good :
    (sub : List ℕ) (cl : Bool) (s : Stream) (o : Drained)
    → Drains sub cl o
    → Good sub (core (finish_drain s o))
finish_drain-Good sub cl s none h = absurd h
finish_drain-Good sub cl s (some (t, none)) h = after_drain-Good sub cl t h
finish_drain-Good sub cl s (some (t, some e)) (live, rest, h) =
    handle_error-Good e sub rest t live h

-- A consistent live transport with something queued is as the loop wants it.
pub Good-Flowing :
    (sub : List ℕ) (c : Core)
    → Good sub c
    → c.finalizing ≡ false
    → 0 < c.size
    → Flowing sub c.closing c
Good-Flowing sub c (inv, (rest, e, inl over)) live some_left = absurd (cc)
Good-Flowing sub c (inv, (rest, e, inr same)) live some_left = record {
  sized = inv.sized;
  ready = inv.ready;
  live = live;
  watched = ground (arith, inv.watching);
  same_closing = refl;
  whole = ap (λ t. c.wire ++ t) (sym same) ∙ e;
}

-- A readiness callback keeps every promise: what it does not put on the wire stays queued.
pub write_ready-Good :
    (sub : List ℕ) (s : Stream)
    → Good sub (core s)
    → s.write_ready_registered ≡ true
    → Good sub (core (write_ready s))
unfolding write_ready
write_ready-Good sub s g registered =
    if-cases (λ t. Good sub (core t)) s.finalizing_close s
      (finish_drain s (drain (suc (length s.write_backlog)) s)) (λ _. g)
      (λ live. finish_drain-Good sub s.closing s (drain (suc (length s.write_backlog)) s) (
        drain-Drains sub s.closing (suc (length s.write_backlog)) s
          (Good-Flowing sub (core s) g live (ground (arith, g.0.watching))) (omega arith)))
