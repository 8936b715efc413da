-- ===== src/Stream/Stable/Writes.antt =====
-- Invariants under the writes of a stream transport (aiofastnet/transport.pyx).
use aiofastnet.Base.{
  ℕ, ◌-◌, true, false, Option, some, List, [], ◌∷◌, length, leb, ◌==◌, inl, inr, Bool-cases,
  if-cases,
}
use aiofastnet.Buffer.{Buffer, unpack, maybe_copy}
use aiofastnet.Stream.Kernel.{Exc}
use aiofastnet.Stream.State.{
  Stream, Request, log_warning, exception_handler, emit, should_report, handle_error,
}
use aiofastnet.Stream.Write.{
  Reply, Tried, sent_all, left, broke, after_try, append_request, enqueue, write_now, write_data,
  write_pointer_data, count_closed_write, pre_write_check, try_write, log_threshold,
}
use aiofastnet.Stream.Lines.{
  Flushed, flushed, append_lines_tail, queue_lines, after_lines, lines_now, write_lines,
  writelines_nocheck, try_writelines, ranges, line_request, backlog_ranges,
}
use aiofastnet.Stream.Lines
use aiofastnet.Stream.Stable.{Stable, warns, reports}

module _ {ℓ} {P : Stream → Type ℓ} (st : Stable P) where
  pub on_error : (e : Exc) (s : Stream) → P s → P (handle_error e s)
  unfolding handle_error
  on_error e s p = st.on_force_close (some e) _ (
      if-cases P (should_report e) (emit (exception_handler e) s) s
        (λ _. st.on_event (exception_handler e) (reports e) s p) (λ _. p))

  pub on_append : (r : Request) (s : Stream) → P s → P (append_request r s)
  unfolding append_request
  on_append r s p = st.on_backlog _ _ s p

  pub on_enqueue : (r : Request) (s : Stream) → P s → P (enqueue r s)
  unfolding enqueue
  on_enqueue r s p = st.on_pause _ (st.on_start _ (on_append r s p))

  pub on_tried : (t : Tried) (s : Stream) → P s → P (after_try t s)
  on_tried sent_all s p = p
  on_tried (left r) s p = on_enqueue r s p
  on_tried (broke e) s p = on_error e s p

  pub on_write_now : (o : Option Buffer) (d : List ℕ) (s : Stream) → P s → P (write_now o d s)
  unfolding write_now
  on_write_now o d s p =
      let (k, t) = try_write o d s.kernel in
      on_tried t (record s { kernel = k }) (st.on_kernel k s p)

  pub on_write_data : (b : Buffer) (s : Stream) → P s → P (write_data b s)
  unfolding write_data
  on_write_data b s p =
      if-cases P (s.write_backlog_size == 0) _ _
        (λ _. if-cases P (length (unpack b) == 0) s _ (λ _. p) (λ _. on_write_now _ _ s p))
        (λ _. if-cases P (length (unpack (maybe_copy b)) == 0) s _ (λ _. p) (λ _. on_enqueue _ s p))

  pub on_write_pointer : (d : List ℕ) (s : Stream) → P s → P (write_pointer_data d s)
  unfolding write_pointer_data
  on_write_pointer d s p =
      if-cases P (length d == 0) s _ (λ _. p)
        (λ _.
          if-cases P (s.write_backlog_size == 0) _ _ (λ _. on_write_now _ _ s p)
            (λ _. on_enqueue _ s p))

  pub on_counted : (s : Stream) → P s → P (count_closed_write s)
  unfolding count_closed_write
  on_counted s p = st.on_count _ _ (
      if-cases P (leb log_threshold s.closed_write_count) _ s
        (λ _. st.on_event log_warning warns s p) (λ _. p))

  pub on_checked :
      (body : Stream → Stream) (s : Stream)
      → ((t : Stream) → P t → P (body t))
      → P s
      → P (pre_write_check body s).0
  unfolding pre_write_check
  on_checked body s h p =
      if-cases (λ (r : Stream × Reply). P r.0) s.write_eof_called _ _ (λ _. p)
        (λ _.
          if-cases (λ (r : Stream × Reply). P r.0) s.finalizing_close _ _ (λ _. on_counted s p)
            (λ _. h s p))

  pub on_lines_tail : (bs : List Buffer) (n : ℕ) (s : Stream) → P s → P (append_lines_tail bs n s)
  unfolding append_lines_tail
  on_lines_tail [] n s p = p
  on_lines_tail (b ∷ bs) n s p = elim (Bool-cases (leb (length (unpack b)) n)) [
    | inl sent ↦ rw (sent, append_lines_tail) (on_lines_tail bs (n - length (unpack b)) s p)
    | inr rest ↦
        rw (rest, append_lines_tail) (on_lines_tail bs 0 _ (on_append (line_request b n) s p))
  ]

  pub on_queue_lines : (bs : List Buffer) (n : ℕ) (s : Stream) → P s → P (queue_lines bs n s)
  unfolding queue_lines
  on_queue_lines bs n s p = st.on_pause _ (st.on_start _ (on_lines_tail bs n s p))

  pub on_flushed : (bs : List Buffer) (r : Flushed) (s : Stream) → P s → P (after_lines bs r s)
  on_flushed bs (flushed true n) s p = p
  on_flushed bs (flushed false n) s p = on_queue_lines bs n s p
  on_flushed bs (Lines.broke e) s p = on_error e s p

  pub on_lines_now : (bs : List Buffer) (s : Stream) → P s → P (lines_now bs s)
  unfolding lines_now
  on_lines_now bs s p =
      let (k, r) = try_writelines (ranges bs) s.kernel in
      on_flushed bs r (record s { kernel = k }) (st.on_kernel k s p)

  pub on_write_lines : (bs : List Buffer) (s : Stream) → P s → P (write_lines bs s)
  unfolding write_lines
  on_write_lines bs s p =
      if-cases P (s.write_backlog_size == 0) (lines_now bs s) (queue_lines bs 0 s)
        (λ _. on_lines_now bs s p) (λ _. on_queue_lines bs 0 s p)
