-- ===== src/Stream/Delivery/Rounds.antt =====
-- One round of `_write_ready` (aiofastnet/transport.pyx) keeps the order of the bytes.
use aiofastnet.Base.{
  ℕ, suc, ◌+◌, ◌-◌, ◌≤◌, ◌<◌, ◌≡◌, refl, sym, ap, ◌∙◌, subst, Bool, true, false, Option, none, some,
  List, [], ◌∷◌, ◌++◌, length, take, drop, take-append_left, take-append-drop, length-append, All,
  arith, append_assoc, is_some, leb,
}
use aiofastnet.Stream.Kernel.{Kernel, flatten}
use aiofastnet.Stream.State.{Stream, Request, write_request, sendfile_request, SendFileRequest}
use aiofastnet.Stream.State.Core.{Core, core}
use aiofastnet.Stream.Lines.{Flushed, flushed, try_writelines, backlog_ranges}
use aiofastnet.Stream.Lines.Groups.{Sends, try_writelines-Sends}
use aiofastnet.Stream.Sendfile.{Transferred, complete, try_sendfile, remaining}
use aiofastnet.Stream.Drain.{
  consume, Round, went, broke, consume_write_backlog, after_flush, resolve, after_transfer, round,
}
use aiofastnet.Stream.Delivery.{pending, total, IsReady}
use aiofastnet.Stream.Delivery.Sendfile.{Transfers, try_sendfile-Transfers, no_remaining}
use aiofastnet.Stream.Delivery.Consume.{
  Consumes, consume-Consumes, backlog_ranges-front, backlog_ranges-NonEmpty,
}

-- Between two rounds: alive, watched, and every byte is on the wire or queued.
pub record Flowing (sub : List ℕ) (closing : Bool) (c : Core) : Type 0 where
  pub sized : c.size ≡ total c.backlog
  pub ready : All IsReady c.backlog
  pub live : c.finalizing ≡ false
  pub watched : c.registered ≡ true
  pub same_closing : c.closing ≡ closing
  pub whole : c.wire ++ pending c.backlog ≡ sub

-- A round that reports `all_sent` takes at least one request off, one that does not leaves some.
abbrev pub Rounds : List ℕ → Bool → List Request → Stream × Round → Type 0
Rounds sub cl q (s, went true) = Flowing sub cl (core s) × (length s.write_backlog < length q)
Rounds sub cl q (s, went false) = Flowing sub cl (core s)
Rounds sub cl q (s, broke e) =
    (s.finalizing_close ≡ false) × (rest : List ℕ) × (s.kernel.wire ++ rest ≡ sub)

consumed-Flowing :
    (sub : List ℕ) (cl : Bool) (n : ℕ) (q q' : List Request) (k : Kernel) (s : Stream)
    → Flowing sub cl (core s)
    → s.write_backlog ≡ q
    → k.wire ≡ s.kernel.wire ++ take n (pending q)
    → Consumes q n (some q')
    → Flowing sub cl (
        core (record s {
          kernel = k;
          write_backlog = q';
          write_backlog_size = s.write_backlog_size - n;
        }))
consumed-Flowing sub cl n q q' k s f eq ew (e, t, ready, short, less) = record {
  sized = omega (arith, f.sized, ap total eq);
  ready = ready;
  live = f.live;
  watched = f.watched;
  same_closing = f.same_closing;
  whole =
      rw (ew, e)
        (append_assoc s.kernel.wire (take n (pending q)) (drop n (pending q))
          ∙ ap (λ t. s.kernel.wire ++ t) (take-append-drop n (pending q) ∙ ap pending (sym eq))
          ∙ f.whole);
}

after_consume :
    (sub : List ℕ) (cl all_sent : Bool) (n : ℕ) (q : List Request) (k : Kernel) (s : Stream)
    → Flowing sub cl (core s)
    → s.write_backlog ≡ q
    → k.wire ≡ s.kernel.wire ++ take n (pending q)
    → (all_sent ≡ true → (0 < n) × (n ≡ length (flatten (backlog_ranges q))))
    → (o : Option (List Request)) → consume q n ≡ o
    → Consumes q n o
    → Rounds sub cl q (consume_write_backlog all_sent n (record s { kernel = k }))
unfolding consume_write_backlog
after_consume sub cl a n q k s f eq ew all none eo h = absurd h
after_consume sub cl true n q k s f eq ew all (some q') eo h =
    let fits : leb n s.write_backlog_size ≡ true = ground (arith, f.sized, ap total eq, h.1) in
    rw (fits, eq, eo) (consumed-Flowing sub cl n q q' k s f eq ew h, h.4 (all refl).0 (all refl).1)
after_consume sub cl false n q k s f eq ew all (some q') eo h =
    let fits : leb n s.write_backlog_size ≡ true = ground (arith, f.sized, ap total eq, h.1) in
    rw (fits, eq, eo) (consumed-Flowing sub cl n q q' k s f eq ew h)

-- What went out of the gathered bytes is a front of what was pending.
front_of_pending :
    (q : List Request) (n : ℕ)
    → n ≤ length (flatten (backlog_ranges q))
    → take n (flatten (backlog_ranges q)) ≡ take n (pending q)
front_of_pending q n le =
    let (rest, e) = backlog_ranges-front q in
    sym (ap (take n) e ∙ take-append_left n (flatten (backlog_ranges q)) rest le)

after_flush-Rounds :
    (sub : List ℕ) (cl : Bool) (q : List Request) (k : Kernel) (r : Flushed) (s : Stream)
    → Flowing sub cl (core s)
    → s.write_backlog ≡ q
    → 0 < length (flatten (backlog_ranges q))
    → Sends (flatten (backlog_ranges q)) s.kernel.wire 0 (k, r)
    → Rounds sub cl q (after_flush s (k, r))
after_flush-Rounds sub cl q k (flushed a t) s f eq pos (n, et, ew, le, done) =
    let same : t ≡ n = omega arith in
    rw same (
      after_consume sub cl a n q k s f eq
        (ew ∙ ap (λ t. s.kernel.wire ++ t) (front_of_pending q n le))
        (λ all. (ground arith, ground arith)) (consume q n) refl
        (consume-Consumes q n (subst (All IsReady) eq f.ready) le))
after_flush-Rounds sub cl q k (Flushed.broke e) s f eq pos (n, ew) =
    let (rest, ef) = backlog_ranges-front q in
    (
      f.live,
      drop n (flatten (backlog_ranges q)) ++ rest,
      rw ew (
          append_assoc s.kernel.wire (take n (flatten (backlog_ranges q)))
            (drop n (flatten (backlog_ranges q)) ++ rest)
          ∙ ap (λ t. s.kernel.wire ++ t)
              (sym (
                  append_assoc (take n (flatten (backlog_ranges q)))
                    (drop n (flatten (backlog_ranges q))) rest)
                ∙ ap (λ t. t ++ rest) (take-append-drop n (flatten (backlog_ranges q)))
                ∙ sym ef
                ∙ ap pending (sym eq))
          ∙ f.whole),
    )

core-resolve : (w : Option ℕ) (s : Stream) → core (resolve w s) ≡ core s
core-resolve none s = refl
core-resolve (some w) s = refl

backlog-resolve : (w : Option ℕ) (s : Stream) → (resolve w s).write_backlog ≡ s.write_backlog
backlog-resolve none s = refl
backlog-resolve (some w) s = refl

-- After a transfer moved on, every byte is still accounted for.
transferred_whole :
    (sub : List ℕ) (cl : Bool) (r r' : SendFileRequest) (q : List Request) (w : List ℕ) (s : Stream)
    → Flowing sub cl (core s)
    → s.write_backlog ≡ sendfile_request r ∷ q
    → w ++ remaining r' ≡ s.kernel.wire ++ remaining r
    → w ++ (remaining r' ++ pending q) ≡ sub
transferred_whole sub cl r r' q w s f eq e =
    sym (append_assoc w (remaining r') (pending q))
    ∙ ap (λ t. t ++ pending q) e
    ∙ append_assoc s.kernel.wire (remaining r) (pending q)
    ∙ ap (λ t. s.kernel.wire ++ t) (ap pending (sym eq))
    ∙ f.whole

-- The front of the backlog is replaced by what is left of it.
transferred-Flowing :
    (sub : List ℕ) (cl : Bool) (r : SendFileRequest) (q q' : List Request) (k : Kernel) (n : ℕ)
    (s : Stream)
    → Flowing sub cl (core s)
    → s.write_backlog ≡ sendfile_request r ∷ q
    → All IsReady q'
    → total q' + (r.count - n) ≡ r.count + total q
    → k.wire ++ pending q' ≡ sub
    → Flowing sub cl (
        core (record s {
          kernel = k;
          write_backlog = q';
          write_backlog_size = s.write_backlog_size - (r.count - n);
        }))
transferred-Flowing sub cl r q q' k n s f eq ready t e = record {
  sized = omega (arith, f.sized, ap total eq);
  ready = ready;
  live = f.live;
  watched = f.watched;
  same_closing = f.same_closing;
  whole = e;
}

after_transfer-Rounds :
    (sub : List ℕ) (cl : Bool) (r : SendFileRequest) (q : List Request)
    (o : SendFileRequest × Kernel × Transferred) (s : Stream)
    → Flowing sub cl (core s)
    → s.write_backlog ≡ sendfile_request r ∷ q
    → Transfers r s.kernel.wire o
    → Rounds sub cl (sendfile_request r ∷ q) (after_transfer s r q o)
after_transfer-Rounds sub cl r q (r', k, complete true) s f eq (e, fits, w, le, end) =
    let none_left : r'.count ≡ 0 = ground arith in
    let s' : Stream = record s {
      kernel = k;
      write_backlog = q;
      write_backlog_size = s.write_backlog_size - (r.count - r'.count);
    } in
    (
      subst (Flowing sub cl) (sym (core-resolve r'.waiter s')) (
          transferred-Flowing sub cl r q q k r'.count s f eq (subst (All IsReady) eq f.ready).1
            (omega arith)
            (ap (λ t. k.wire ++ (t ++ pending q)) (sym (no_remaining r' none_left))
              ∙ transferred_whole sub cl r r' q k.wire s f eq e)),
      subst (λ t. length t < suc (length q)) (sym (backlog-resolve r'.waiter s')) (omega arith),
    )
after_transfer-Rounds sub cl r q (r', k, complete false) s f eq (e, fits, w, le, end) =
    let ready = subst (All IsReady) eq f.ready in
    transferred-Flowing sub cl r q (sendfile_request r' ∷ q) k r'.count s f eq
      ((ground arith, fits, ap is_some w ∙ ready.0.2), ready.1) (omega arith)
      (transferred_whole sub cl r r' q k.wire s f eq e)
after_transfer-Rounds sub cl r q (r', k, Transferred.broke x) s f eq (e, fits, w, le, end) =
    (f.live, remaining r' ++ pending q, transferred_whole sub cl r r' q k.wire s f eq e)

pub round-Rounds :
    (sub : List ℕ) (cl : Bool) (q : List Request) (s : Stream)
    → Flowing sub cl (core s)
    → s.write_backlog ≡ q
    → 0 < s.write_backlog_size
    → Rounds sub cl q (round q s)
unfolding round
round-Rounds sub cl [] s f eq pos = absurd (omega (arith, f.sized, ap total eq))
round-Rounds sub cl (write_request d ∷ q) s f eq pos =
    let ready = subst (All IsReady) eq f.ready in
    let (k, r) = try_writelines (backlog_ranges (write_request d ∷ q)) s.kernel in
    after_flush-Rounds sub cl (write_request d ∷ q) k r s f eq (gathered_pos ready.0) (
      try_writelines-Sends (backlog_ranges (write_request d ∷ q)) s.kernel
        (backlog_ranges-NonEmpty (write_request d ∷ q) ready))
  where
    gathered_pos : 0 < length d → 0 < length (flatten (backlog_ranges (write_request d ∷ q)))
    gathered_pos h =
        unfold flatten backlog_ranges in omega (arith, length-append d (flatten (backlog_ranges q)))
round-Rounds sub cl (sendfile_request r ∷ q) s f eq pos =
    after_transfer-Rounds sub cl r q (try_sendfile r s.kernel) s f eq
      (try_sendfile-Transfers r s.kernel (subst (All IsReady) eq f.ready).0.1)
