-- ===== src/Witnesses/Inbound.antt =====
-- The theorems on the read side at concrete inputs.
use aiofastnet.Base.{◌≡◌, refl, true, false, List, [], ◌∷◌, ◌++◌, arith}
use aiofastnet.Reading.{
  gives, would_block, at_eof, interrupted, pause, resume, close_it, switch, Reader, Op, client_call,
  read_event, run, simple_loop, buffered_loop, max_read_bytes_per_cycle_hint,
}
use aiofastnet.Reading.Delivered.{run-Keeps, run-closing}
use aiofastnet.Reading.Still.{IsWatching}
use aiofastnet.Reading.Budget.{loops_end}

-- A peer that sent five bytes and then closed its side.
abbrev reading : Reader
reading = record {
  stream = 1 ∷ 2 ∷ 3 ∷ 4 ∷ 5 ∷ [];
  script = gives 1 ∷ interrupted ∷ gives 9 ∷ would_block ∷ at_eof ∷ [];
  buffers = 2 ∷ 9 ∷ [];
  reactions =
      record { actions = pause ∷ []; raises = false }
      ∷ record { actions = switch true ∷ []; raises = false }
      ∷ [];
  keep_open = false;
  backlog_empty = true;
  buffered = false;
  read_paused = false;
  closing = false;
  finalizing_close = false;
  protocol_connected = true;
  protocol_eof_received = false;
  reader = true;
  handed = [];
  trace = [];
}

abbrev events : List Op
events =
    read_event
    ∷ read_event
    ∷ client_call resume
    ∷ read_event
    ∷ read_event
    ∷ read_event
    ∷ client_call close_it
    ∷ []

run-Keeps_example :
    let t : Reader = run events reading in
    (t.handed ++ t.stream ≡ 1 ∷ 2 ∷ 3 ∷ 4 ∷ 5 ∷ [])
    × IsWatching t
    × (reading.closing ≡ true → t.closing ≡ true)
run-Keeps_example =
    run-Keeps events reading (tt, (tt, (tt, (tt, (tt, (tt, (tt, tt)))))))
      ((λ _. refl), (λ e. absurd (ground arith)), λ e. absurd (ground arith))

run-closing_example :
    (run events (record reading { read_paused = true; closing = true; reader = false })).handed ≡ []
run-closing_example =
    run-closing events (record reading { read_paused = true; closing = true; reader = false })
      (tt, (tt, (tt, (tt, (tt, (tt, (tt, tt)))))))
      ((λ e. absurd (ground arith)), (λ _. refl), λ e. absurd (ground arith)) refl

loops_end_example :
    (buffered_loop 300000 0 reading ≡ buffered_loop max_read_bytes_per_cycle_hint 0 reading)
    × (simple_loop 300000 0 reading ≡ simple_loop 1 0 reading)
loops_end_example = loops_end 300000 reading (omega arith)
