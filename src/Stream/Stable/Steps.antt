-- ===== src/Stream/Stable/Steps.antt =====
-- Invariants under all calls of a stream transport (aiofastnet/transport.pyx).
use aiofastnet.Base.{
  ℕ, zero, suc, ◌+◌, ◌-◌, Bool, true, false, not, ◌||◌, Option, none, some, List, [], ◌∷◌, length,
  leb, ◌==◌, inl, inr, Bool-cases, if-cases,
}
use aiofastnet.Stream.Kernel.{Kernel, type_error}
use aiofastnet.Stream.Watermarks.{set_limits, high_limit, low_limit}
use aiofastnet.Stream.State.{
  Stream, Request, write_request, sendfile_request, SendFileRequest, shutdown_write, waiter_result,
  maybe_resume, stop_backlog_writing, schedule_finalize_close, close,
}
use aiofastnet.Stream.Write.{
  Reply, append_request, write_data, write_pointer_data, write_nocheck, write_c,
}
use aiofastnet.Stream.Lines.{
  Flushed, flushed, append_lines_tail, queue_lines, after_lines, lines_now, write_lines,
  writelines_nocheck, try_writelines, ranges, line_request, backlog_ranges,
}
use aiofastnet.Stream.Lines
use aiofastnet.Stream.Sendfile.{
  Transferred, complete, enqueue_sendfile, after_sendfile, start_sendfile, start_made, sendfile,
  make_sendfile_request, try_sendfile,
}
use aiofastnet.Stream.Sendfile
use aiofastnet.Stream.Drain.{
  Round, went, consume, consume_write_backlog, after_flush, resolve, after_transfer, round, Drained,
  after_round, drain, write_eof_now, when_empty, after_drain, finish_drain, write_ready, write_eof,
}
use aiofastnet.Stream.Drain
use aiofastnet.Stream.Run.{
  Op, write, write_pointer, writelines, send_file, set_buffer_limits, write_eof_call, close_call,
  abort_call, connection_made_callback, write_ready_callback, finalize_callback,
  set_write_buffer_limits, step, run,
}
use aiofastnet.Stream.Stable.{Stable, shuts, resolves}
use aiofastnet.Stream.Stable.Writes.{
  on_error, on_checked, on_write_data, on_write_pointer, on_write_lines,
}

module _ {ℓ} {P : Stream → Type ℓ} (st : Stable P) where
  on_sendfile_queue : (r : SendFileRequest) (s : Stream) → P s → P (enqueue_sendfile r s).0
  unfolding enqueue_sendfile append_request
  on_sendfile_queue r s p =
      st.on_pause _ (st.on_start _ (st.on_backlog _ _ _ (st.on_waiter (s.next_waiter + 1) s p)))

  on_sendfile_tried :
      (o : SendFileRequest × Kernel × Transferred) (s : Stream) → P s → P (after_sendfile s o).0
  on_sendfile_tried (r, k, complete true) s p = st.on_kernel k s p
  on_sendfile_tried (r, k, complete false) s p =
      on_sendfile_queue r (record s { kernel = k }) (st.on_kernel k s p)
  on_sendfile_tried (r, k, Sendfile.broke e) s p =
      on_error st e (record s { kernel = k }) (st.on_kernel k s p)

  on_sendfile_start : (r : SendFileRequest) (s : Stream) → P s → P (start_sendfile r s).0
  unfolding start_sendfile
  on_sendfile_start r s p =
      if-cases (λ (o : Stream × Reply). P o.0) (r.count == 0) _ _ (λ _. p)
        (λ _.
          if-cases (λ (o : Stream × Reply). P o.0) (s.write_backlog_size == 0)
            (after_sendfile s (try_sendfile r s.kernel)) (enqueue_sendfile r s)
            (λ _. on_sendfile_tried (try_sendfile r s.kernel) s p) (λ _. on_sendfile_queue r s p))

  on_sendfile_made : (o : Option SendFileRequest) (s : Stream) → P s → P (start_made o s).0
  on_sendfile_made none s p = p
  on_sendfile_made (some r) s p = on_sendfile_start r s p

  on_sendfile :
      (file : List ℕ) (offset : ℕ) (count : Option ℕ) (s : Stream)
      → P s
      → P (sendfile file offset count s).0
  unfolding sendfile
  on_sendfile file offset count s p =
      if-cases (λ (o : Stream × Reply). P o.0) (not s.sendfile_compatible) _ _ (λ _. p)
        (λ _.
          if-cases (λ (o : Stream × Reply). P o.0)
            (s.write_eof_called || (s.closing || s.finalizing_close)) _ _ (λ _. p)
            (λ _. on_sendfile_made (make_sendfile_request file offset count) s p))

  on_consume : (a : Bool) (n : ℕ) (s : Stream) → P s → P (consume_write_backlog a n s).0
  unfolding consume_write_backlog
  on_consume a n s p =
      if-cases (λ (o : Stream × Round). P o.0) (leb n s.write_backlog_size) _ _
        (λ _. consumed (consume s.write_backlog n)) (λ _. p)
    where
      consumed :
          (o : Option (List Request))
          → P (
              let r : Stream × Round = elim o [
                | none ↦ (
                  record s { write_backlog_size = s.write_backlog_size - n },
                  Drain.broke type_error,
                )
                | some q ↦ (
                  record s { write_backlog = q; write_backlog_size = s.write_backlog_size - n },
                  went a,
                )
              ] in
              r.0)
      consumed none = st.on_backlog s.write_backlog (s.write_backlog_size - n) s p
      consumed (some q) = st.on_backlog q (s.write_backlog_size - n) s p

  on_flush : (o : Kernel × Flushed) (s : Stream) → P s → P (after_flush s o).0
  on_flush (k, flushed a n) s p = on_consume a n (record s { kernel = k }) (st.on_kernel k s p)
  on_flush (k, Lines.broke e) s p = st.on_kernel k s p

  on_resolved : (w : Option ℕ) (s : Stream) → P s → P (resolve w s)
  on_resolved none s p = p
  on_resolved (some w) s p = st.on_event (waiter_result w) (resolves w) s p

  on_transfer :
      (r : SendFileRequest) (q : List Request) (o : SendFileRequest × Kernel × Transferred)
      (s : Stream)
      → P s
      → P (after_transfer s r q o).0
  on_transfer r q (r', k, complete true) s p =
      on_resolved r'.waiter _
        (st.on_backlog q (s.write_backlog_size - (r.count - r'.count)) _ (st.on_kernel k s p))
  on_transfer r q (r', k, complete false) s p =
      st.on_backlog (sendfile_request r' ∷ q) (s.write_backlog_size - (r.count - r'.count)) _
        (st.on_kernel k s p)
  on_transfer r q (r', k, Sendfile.broke e) s p =
      st.on_backlog (sendfile_request r' ∷ q) s.write_backlog_size _ (st.on_kernel k s p)

  on_round : (q : List Request) (s : Stream) → P s → P (round q s).0
  unfolding round
  on_round [] s p = p
  on_round (write_request d ∷ q) s p =
      on_flush (try_writelines (backlog_ranges (write_request d ∷ q)) s.kernel) s p
  on_round (sendfile_request r ∷ q) s p = on_transfer r q (try_sendfile r s.kernel) s p

  -- The state in which the loop stops, however it stops.
  abbrev Holds : Drained → Type ℓ
  Holds none = Unit
  Holds (some (s, e)) = P s

  on_rounded :
      (rest : Stream → Drained) (o : Stream × Round)
      → ((t : Stream) → P t → Holds (rest t))
      → P o.0
      → Holds (after_round rest o)
  on_rounded rest (s, went true) h p = h s p
  on_rounded rest (s, went false) h p = p
  on_rounded rest (s, Drain.broke e) h p = p

  on_drain : (fuel : ℕ) (s : Stream) → P s → Holds (drain fuel s)
  unfolding drain
  on_drain zero s p = tt
  on_drain (suc fuel) s p = elim (Bool-cases (s.write_backlog_size == 0)) [
    | inl empty ↦ rw (empty, drain) p
    | inr more ↦
        rw (more, drain)
          (on_rounded (λ t. drain fuel t) (round s.write_backlog s) (λ t q. on_drain fuel t q)
            (on_round s.write_backlog s p))
  ]

  on_eof_now : (s : Stream) → P s → P (write_eof_now s)
  unfolding write_eof_now
  on_eof_now s p =
      if-cases P s.is_socket _ (close s) (λ _. st.on_event shutdown_write shuts s p)
        (λ _. st.on_close s p)

  on_empty : (s : Stream) → P s → P (when_empty s)
  unfolding when_empty
  on_empty s p =
      let s1 = stop_backlog_writing s in
      let p1 = st.on_stop s p in
      if-cases P s1.closing _ _
        (λ shut.
          if-cases P s1.finalizing_close s1 (schedule_finalize_close none s1) (λ _. p1)
            (λ live. st.on_schedule s1 shut live p1))
        (λ _.
          if-cases P s1.write_eof_called (write_eof_now s1) s1 (λ _. on_eof_now s1 p1) (λ _. p1))

  on_drained : (s : Stream) → P s → P (after_drain s)
  unfolding after_drain
  on_drained s p =
      let s1 = maybe_resume s in
      if-cases P (s1.write_backlog_size == 0) (when_empty s1) s1
        (λ _. on_empty s1 (st.on_resume s p)) (λ _. st.on_resume s p)

  on_finish : (o : Drained) (s : Stream) → P s → Holds o → P (finish_drain s o)
  on_finish none s p h = p
  on_finish (some (t, none)) s p h = on_drained t h
  on_finish (some (t, some e)) s p h = on_error st e t h

  on_write_ready : (s : Stream) → P s → P (write_ready s)
  unfolding write_ready
  on_write_ready s p =
      if-cases P s.finalizing_close s (finish_drain s (drain (suc (length s.write_backlog)) s))
        (λ _. p)
        (λ _.
          on_finish (drain (suc (length s.write_backlog)) s) s p
            (on_drain (suc (length s.write_backlog)) s p))

  on_write_eof : (s : Stream) → P s → P (write_eof s)
  unfolding write_eof
  on_write_eof s p =
      let s1 : Stream = record s { write_eof_called = true } in
      if-cases P (s.closing || s.write_eof_called) s _ (λ _. p)
        (λ _.
          if-cases P (s.write_backlog_size == 0) (write_eof_now s1) s1
            (λ _. on_eof_now s1 (st.on_eof s p)) (λ _. st.on_eof s p))

  on_set_limits :
      (high low : Option ℕ) (s : Stream) → P s → P (set_write_buffer_limits high low s).0
  unfolding set_write_buffer_limits set_limits
  on_set_limits high low s p =
      let h = high_limit high low in
      let l = low_limit h low in
      elim (Bool-cases (leb l h)) [
        | inl fits ↦
            rw (fits, set_write_buffer_limits, set_limits)
              (st.on_resume _ (st.on_pause _ (st.on_limits l h s p)))
        | inr crossed ↦ rw (crossed, set_write_buffer_limits, set_limits) p
      ]

  -- Every call keeps the invariant.
  pub on_step : (op : Op) (s : Stream) → P s → P (step op s)
  unfolding step write_nocheck write_c writelines_nocheck
  on_step (write b) s p = on_checked st (write_data b) s (on_write_data st b) p
  on_step (write_pointer d) s p = on_checked st (write_pointer_data d) s (on_write_pointer st d) p
  on_step (writelines bs) s p = on_checked st (write_lines bs) s (on_write_lines st bs) p
  on_step (send_file file offset count) s p = on_sendfile file offset count s p
  on_step (set_buffer_limits high low) s p = on_set_limits high low s p
  on_step write_eof_call s p = on_write_eof s p
  on_step close_call s p = st.on_close s p
  on_step abort_call s p = st.on_force_close none s p
  on_step connection_made_callback s p = st.on_made s p
  on_step write_ready_callback s p =
      if-cases P s.write_ready_registered (write_ready s) s (λ _. on_write_ready s p) (λ _. p)
  on_step finalize_callback s p = st.on_finalize s p

  pub on_run : (ops : List Op) (s : Stream) → P s → P (run ops s)
  unfolding run
  on_run [] s p = p
  on_run (op ∷ ops) s p = on_run ops (step op s) (on_step op s p)
