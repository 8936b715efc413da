-- ===== src/Stream/Delivery/Ending.antt =====
-- The loop of `_write_ready` comes to an end (aiofastnet/transport.pyx).
use aiofastnet.Base.{
  ℕ, suc, ◌≡◌, refl, Bool, true, false, none, some, List, [], is_some, length, All, arith,
}
use aiofastnet.Stream.Kernel.{Answer}
use aiofastnet.Stream.State.{init}
use aiofastnet.Stream.State.Core.{core}
use aiofastnet.Stream.Drain.{Drained, drain}
use aiofastnet.Stream.Run.{Op, run, accepted}
use aiofastnet.Stream.Delivery.Drain.{Drains, drain-Drains, Good-Flowing}
use aiofastnet.Stream.Delivery.History.{IsPlain, run-Good, init-Good}

Drains-some : (sub : List ℕ) (cl : Bool) (d : Drained) → Drains sub cl d → is_some d ≡ true
Drains-some sub cl none p = elim p [ ]
Drains-some sub cl (some d) p = refl

-- After any history of calls on a new transport, none of which passes a memoryview over bytes with
-- wide items, the loop of `_write_ready` ends, whatever the system answers: as many rounds as one
-- more than there are queued requests are enough, while the transport is not torn down and the
-- socket is watched.
pub run-drains :
    (ops : List Op) (socket server able : Bool) (script : List Answer)
    → All IsPlain ops
    → (run ops (init socket server able script)).finalizing_close ≡ false
    → (run ops (init socket server able script)).write_ready_registered ≡ true
    → is_some (
        drain
          (suc (length (run ops (init socket server able script)).write_backlog))
          (run ops (init socket server able script)))
      ≡ true
run-drains ops socket server able script plain live registered =
    let s0 = init socket server able script in
    let s = run ops s0 in
    let sub = accepted ops s0 in
    let g = run-Good ops [] s0 plain (init-Good socket server able script) in
    Drains-some sub s.closing (drain (suc (length s.write_backlog)) s) (
      drain-Drains sub s.closing (suc (length s.write_backlog)) s
        (Good-Flowing sub (core s) g live (ground (arith, registered, g.0.watching))) (omega arith))
