-- ===== src/Witnesses/Secure.antt =====
-- The theorems on TLS transports and memory BIOs at concrete inputs.
use aiofastnet.Base.{ℕ, ◌≡◌, refl, true, false, some, List, [], ◌∷◌, ◌++◌, arith}
use aiofastnet.Stream.Kernel
use aiofastnet.Stream.Kernel.{flatten}
use aiofastnet.MemBio
use aiofastnet.MemBio.{Memory, pos, Reply}
use aiofastnet.MemBio.Queue.{Serves, put_in, taken_out}
use aiofastnet.MemBio.Moves.{queue}
use aiofastnet.Tls
use aiofastnet.Tls.{
  Tls, Answer, progress, stops, want_read, want_write, zero_return, waiting, woken, flushing,
  wrapped, ok, is_closing,
}
use aiofastnet.Tls.Close
use aiofastnet.Tls.Loops
use aiofastnet.Tls.Reads
use aiofastnet.Tls.Reads.{arrives}
use aiofastnet.Tls.Run
use aiofastnet.Tls.Run.{
  Op, write_call, writelines_call, write_ready_event, read_ready_event, close_call, finalize_event,
  set_limits_call, write_eof_call, construct,
}
use aiofastnet.Tls.Calm.{held, IsSound}
use aiofastnet.Tls.Promise.{Built, accepted, run-in_order, run-IsSound, run-is_closing}
use aiofastnet.MemBio.Refine.{view_of, new-Serves, new-delivers}

-- The engine writes, the transport sends, the peer's bytes come in behind.
abbrev exchange : List MemBio.Op
exchange =
    MemBio.write_call (1 ∷ 2 ∷ 3 ∷ [])
    ∷ MemBio.send 2
    ∷ MemBio.receive (4 ∷ 5 ∷ 6 ∷ [])
    ∷ MemBio.receive (7 ∷ [])
    ∷ MemBio.read_call 3
    ∷ MemBio.control_call MemBio.ctrl_pending
    ∷ []

new-Serves_example :
    Serves 4 exchange
      (MemBio.run exchange (MemBio.new (some (0 ∷ 0 ∷ 0 ∷ 0 ∷ [])))).1
      (queue [] (pos 0))
      (view_of (MemBio.run exchange (MemBio.new (some (0 ∷ 0 ∷ 0 ∷ 0 ∷ [])))).0)
new-Serves_example = new-Serves 0 (0 ∷ 0 ∷ 0 ∷ []) exchange (omega arith)

new-delivers_example :
    taken_out exchange (MemBio.run exchange (MemBio.new (some (0 ∷ 0 ∷ 0 ∷ 0 ∷ [])))).1
      ++ (view_of (MemBio.run exchange (MemBio.new (some (0 ∷ 0 ∷ 0 ∷ 0 ∷ [])))).0).bytes
    ≡ put_in exchange (MemBio.run exchange (MemBio.new (some (0 ∷ 0 ∷ 0 ∷ 0 ∷ [])))).1
new-delivers_example =
    new-delivers 0 (0 ∷ 0 ∷ 0 ∷ []) exchange (omega arith)
      (refl, (refl, (refl, (refl, (refl, (refl, tt))))))

-- A handshake, a write in two parts, and a close that the peer answers.
abbrev answers : List Answer
answers =
    stops want_write (9 ∷ [])
    ∷ progress 0 [] (9 ∷ [])
    ∷ progress 1 [] (8 ∷ 8 ∷ [])
    ∷ stops want_read []
    ∷ progress 0 (5 ∷ []) []
    ∷ stops want_read []
    ∷ progress 3 [] (7 ∷ [])
    ∷ stops zero_return []
    ∷ progress 0 [] (6 ∷ [])
    ∷ []

abbrev room : List Kernel.Answer
room = Kernel.takes 9 ∷ Kernel.takes 1 ∷ Kernel.takes 1 ∷ Kernel.would_block ∷ Kernel.takes 9 ∷ []

abbrev life : List Op
life =
    write_call (1 ∷ 2 ∷ 3 ∷ [])
    ∷ writelines_call ((4 ∷ []) ∷ (5 ∷ []) ∷ [])
    ∷ read_ready_event (arrives 3 10 ∷ [])
    ∷ write_ready_event
    ∷ set_limits_call (some 3) (some 4)
    ∷ write_eof_call
    ∷ close_call
    ∷ write_call (6 ∷ [])
    ∷ write_ready_event
    ∷ finalize_event
    ∷ []

run-in_order_example :
    Built
      (λ t.
        let v : Tls = (Run.run life t).0 in
        (lost : List ℕ) × ((held v ++ lost ≡ accepted life t)
          × (v.finalizing_close ≡ false → lost ≡ [])))
      (construct (Run.init true waiting answers room))
run-in_order_example = run-in_order true waiting answers room life

run-IsSound_example :
    Built (λ t. IsSound (Run.run life t).0) (construct (Run.init true waiting answers room))
run-IsSound_example = run-IsSound true waiting answers room life

-- The constructor returns, with the handshake done.
done_handshake :
    ((construct (Run.init true waiting answers room)).1 ≡ ok tt)
    × ((construct (Run.init true waiting answers room)).0.phase ≡ wrapped)
unfolding construct Run.constructed Run.start_handshake Tls.set_state Tls.allowed Run.init
    Reads.incoming_bio_updated Loops.do_handshake Loops.handshake_script Tls.flush_outgoing_bio
    Tls.flushed Tls.ensure_writer Kernel.aiofn_write Kernel.write_script Close.handshake_made
    Close.cancel_handshake Close.wakeup_waiter Close.wakeup Close.settled Close.call_connection_made
done_handshake = (refl, refl)

-- A transport that flushes after close, with data that OpenSSL has not taken yet.
abbrev flushing_down : Tls
unfolding Run.init
flushing_down = record (Run.init true woken answers room) {
  phase = flushing;
  protocol_connected = true;
  taken = 1 ∷ [];
  write_backlog = (2 ∷ 3 ∷ []) ∷ [];
  write_backlog_size = 2;
  shutdown_timeout_handle = true;
}

flushing_down-IsSound : IsSound flushing_down
unfolding Run.init flatten
flushing_down-IsSound = (
  (refl, (λ _. refl), (λ e. absurd (ground arith)), λ e. absurd (ground arith)),
  (λ _. refl),
  λ e. absurd (ground arith),
)

run-is_closing_example :
    let v : Tls = (Run.run life flushing_down).0 in
    (is_closing v ≡ true)
    × ((lost : List ℕ) × ((held v ++ lost ≡ held flushing_down)
          × (v.finalizing_close ≡ false → lost ≡ [])))
unfolding Run.init is_closing Tls.is_over
run-is_closing_example = run-is_closing life flushing_down flushing_down-IsSound refl
