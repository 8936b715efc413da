-- ===== src/Reading/Delivered.antt =====
-- A protocol is handed what the peer sent, in order, and nothing once it has closed the transport
-- (aiofastnet/selector_transport.pyx).
use aiofastnet.Base.{
  ℕ, zero, suc, ◌+◌, min, ◌≡◌, refl, sym, ap, ◌∙◌, Bool, true, false, not, ◌||◌, none, some, List,
  All, [], ◌∷◌, ◌++◌, take, drop, length, is_empty, take-append-drop, append_assoc, ltb,
  if◌then◌else◌, if-cases, Bool-cases, inl, inr, arith,
}
use aiofastnet.Reading.{
  Answer, gives, would_block, interrupted, at_eof, fails, Exc, data_received, exception_handler,
  Reader, Reply, ok, raised, emit, force_close, handle_error, act, react, hand, Got, got, again,
  failed, read_script, aiofn_read, data_received_max_size, call_eof_received, on_eof, get_buffer,
  may_read, go_on, after_read, simple_loop, into_buffer, buffered_loop, guard, read_ready,
  pipe_error, should_report, max_read_bytes_per_cycle_hint, pipe_guard, pipe_read, pipe_read_ready,
  pipe_eof, call_connection_made, connection_made_event, add_reader_event, Op, client_call,
  read_event, pipe_event, step, run,
}
use aiofastnet.Reading.Still.{
  IsWatching, Stays, Stays-trans, act-Stays, react-Stays, force_close-Stays,
  call_eof_received-Stays, on_eof-Stays, handle_error-Stays, get_buffer-Stays,
  call_connection_made-Stays,
}

-- No byte is lost or made up, and a close is for good.
abbrev pub Keeps : Reader → Reader → Type 0
Keeps s t =
    (t.handed ++ t.stream ≡ s.handed ++ s.stream)
    × (IsWatching s → IsWatching t)
    × (s.closing ≡ true → t.closing ≡ true)

Keeps-refl : (s : Reader) → Keeps s s
Keeps-refl s = (refl, (λ h. h), λ c. c)

Keeps-trans : (s t u : Reader) → Keeps s t → Keeps t u → Keeps s u
Keeps-trans s t u k l = (l.0 ∙ k.0, (λ h. l.1 (k.1 h)), λ c. l.2 (k.2 c))

Stays-Keeps : (s t : Reader) → Stays s t → Keeps s t
Stays-Keeps s t k = (ap (λ x. x ++ t.stream) k.0.0 ∙ ap (λ x. s.handed ++ x) k.0.1, k.1, k.2)

-- A read takes a front of what is to be read.
abbrev pub Reads : Reader → Reader × Got → Type 0
Reads s (t, got d) =
    (s.stream ≡ d ++ t.stream)
    × (t.handed ≡ s.handed)
    × (IsWatching s → IsWatching t)
    × (s.closing ≡ true → t.closing ≡ true)
Reads s (t, again) = Keeps s t
Reads s (t, failed e) = Keeps s t

given-Reads :
    (k : ℕ) (script : List Answer) (s : Reader)
    → Reads s (
      record s { script = script; stream = drop k s.stream },
      if is_empty (take k s.stream) then again else got (take k s.stream),
    )
given-Reads k script s = pick (take k s.stream) (sym (take-append-drop k s.stream))
  where
    pick :
        (d : List ℕ)
        → s.stream ≡ d ++ drop k s.stream
        → Reads s (
          record s { script = script; stream = drop k s.stream },
          if is_empty d then again else got d,
        )
    pick [] e = (ap (λ x. s.handed ++ x) (sym e), (λ h. h), λ c. c)
    pick (x ∷ d) e = (e, refl, (λ h. h), λ c. c)

read_script-Reads :
    (len : ℕ) (script : List Answer) (s : Reader) → Reads s (read_script len script s)
unfolding read_script
read_script-Reads len [] s = (refl, (λ h. h), λ c. c)
read_script-Reads len (gives n ∷ script) s = given-Reads (min (suc n) len) script s
read_script-Reads len (would_block ∷ script) s = (refl, (λ h. h), λ c. c)
read_script-Reads len (interrupted ∷ script) s = read_script-Reads len script s
read_script-Reads len (at_eof ∷ script) s = (refl, refl, (λ h. h), λ c. c)
read_script-Reads len (fails e ∷ script) s = (refl, (λ h. h), λ c. c)

hand-Keeps : (d : List ℕ) (s t : Reader) → Reads s (t, got d) → Keeps s (hand d t).0
unfolding hand
hand-Keeps d s t r =
    let u : Reader = emit (data_received d) (record t { handed = t.handed ++ d }) in
    let k : Keeps u (react t.reactions u).0 =
      Stays-Keeps u (react t.reactions u).0 (react-Stays t.reactions u) in
    (
      k.0
          ∙ append_assoc t.handed d t.stream
          ∙ ap (λ x. x ++ (d ++ t.stream)) r.1
          ∙ ap (λ x. s.handed ++ x) (sym r.0),
      (λ h. k.1 (r.2 h)),
      λ c. k.2 (r.3 c),
    )

eof-Keeps : (s t : Reader) → Reads s (t, got []) → Keeps s t
eof-Keeps s t r = (ap (λ x. x ++ t.stream) r.1 ∙ ap (λ x. s.handed ++ x) (sym r.0), r.2, r.3)

go_on-Keeps :
    (kind : Bool) (limit n : ℕ) (next : ℕ → Reader → Reader × Reply (Unit {0})) (s : Reader)
    (r : Reader × Reply (Unit {0}))
    → ((m : ℕ) (t : Reader) → Keeps t (next m t).0)
    → Keeps s r.0
    → Keeps s (go_on kind limit n next r).0
unfolding go_on
go_on-Keeps kind limit n next s (t, raised e) f k = k
go_on-Keeps kind limit n next s (t, ok u) f k =
    if-cases (λ r. Keeps s r.0) (ltb n limit || not (if t.buffered then kind else not kind))
      (t, ok tt) (next n t) (λ _. k) (λ _. Keeps-trans s t (next n t).0 k (f n t))

after_read-Keeps :
    (kind : Bool) (limit : ℕ) (next : ℕ → Reader → Reader × Reply (Unit {0})) (s : Reader)
    (r : Reader × Got)
    → ((m : ℕ) (t : Reader) → Keeps t (next m t).0)
    → Reads s r
    → Keeps s (after_read kind limit next r).0
unfolding after_read
after_read-Keeps kind limit next s (t, again) f k = k
after_read-Keeps kind limit next s (t, failed e) f k = k
after_read-Keeps kind limit next s (t, got []) f k =
    Keeps-trans s t (on_eof t).0 (eof-Keeps s t k) (Stays-Keeps t (on_eof t).0 (on_eof-Stays t))
after_read-Keeps kind limit next s (t, got (x ∷ d)) f k =
    go_on-Keeps kind limit (length (x ∷ d)) next s (hand (x ∷ d) t) f (hand-Keeps (x ∷ d) s t k)

simple_loop-Keeps : (fuel total : ℕ) (s : Reader) → Keeps s (simple_loop fuel total s).0
unfolding simple_loop aiofn_read
simple_loop-Keeps zero total s = Keeps-refl s
simple_loop-Keeps (suc fuel) total s =
    let next : ℕ → Reader → Reader × Reply (Unit {0}) = λ n t. simple_loop fuel (total + n) t in
    if-cases (λ r. Keeps s r.0) (may_read total s)
      (after_read false data_received_max_size next (read_script data_received_max_size s.script s))
      (s, ok tt)
      (λ _.
        after_read-Keeps false data_received_max_size next s
          (read_script data_received_max_size s.script s)
          (λ m t. simple_loop-Keeps fuel (total + m) t)
          (read_script-Reads data_received_max_size s.script s))
      (λ _. Keeps-refl s)

into_buffer-Keeps :
    (next : ℕ → Reader → Reader × Reply (Unit {0})) (s : Reader) (r : Reader × Reply ℕ)
    → ((m : ℕ) (t : Reader) → Keeps t (next m t).0)
    → Stays s r.0
    → Keeps s (into_buffer next r).0
unfolding into_buffer aiofn_read
into_buffer-Keeps next s (t, raised e) f k = Stays-Keeps s t k
into_buffer-Keeps next s (t, ok len) f k =
    let r : Reader × Got = read_script len t.script t in
    Keeps-trans s t (after_read true len next r).0 (Stays-Keeps s t k)
      (after_read-Keeps true len next t r f (read_script-Reads len t.script t))

buffered_loop-Keeps : (fuel total : ℕ) (s : Reader) → Keeps s (buffered_loop fuel total s).0
unfolding buffered_loop
buffered_loop-Keeps zero total s = Keeps-refl s
buffered_loop-Keeps (suc fuel) total s =
    let next : ℕ → Reader → Reader × Reply (Unit {0}) = λ n t. buffered_loop fuel (total + n) t in
    if-cases (λ r. Keeps s r.0) (may_read total s) (into_buffer next (get_buffer s.buffers s))
      (s, ok tt)
      (λ _.
        into_buffer-Keeps next s (get_buffer s.buffers s)
          (λ m t. buffered_loop-Keeps fuel (total + m) t) (get_buffer-Stays s.buffers s))
      (λ _. Keeps-refl s)

guard-Keeps : (s : Reader) (r : Reader × Reply (Unit {0})) → Keeps s r.0 → Keeps s (guard r)
unfolding guard
guard-Keeps s (t, ok u) k = k
guard-Keeps s (t, raised e) k =
    Keeps-trans s t (handle_error e t) k (Stays-Keeps t (handle_error e t) (handle_error-Stays e t))

read_ready-Keeps : (s : Reader) → Keeps s (read_ready s)
unfolding read_ready
read_ready-Keeps s =
    guard-Keeps s
      (if s.buffered
        then buffered_loop max_read_bytes_per_cycle_hint 0 s
        else simple_loop max_read_bytes_per_cycle_hint 0 s)
      (if-cases (λ r. Keeps s r.0) s.buffered (buffered_loop max_read_bytes_per_cycle_hint 0 s)
        (simple_loop max_read_bytes_per_cycle_hint 0 s)
        (λ _. buffered_loop-Keeps max_read_bytes_per_cycle_hint 0 s)
        (λ _. simple_loop-Keeps max_read_bytes_per_cycle_hint 0 s))

pipe_error-Keeps : (e : Exc) (s : Reader) → Keeps s (pipe_error e s)
unfolding pipe_error
pipe_error-Keeps e s =
    let t : Reader = emit (exception_handler e) s in
    if-cases (λ u. Keeps s (force_close (some e) u)) (should_report e) t s
      (λ _. Stays-Keeps s (force_close (some e) t) (force_close-Stays (some e) t))
      (λ _. Stays-Keeps s (force_close (some e) s) (force_close-Stays (some e) s))

pipe_read-Keeps : (s : Reader) (r : Reader × Got) → Reads s r → Keeps s (pipe_read r).0
unfolding pipe_read
pipe_read-Keeps s (t, again) k = k
pipe_read-Keeps s (t, failed e) k = k
pipe_read-Keeps s (t, got []) k =
    Keeps-trans s t (pipe_eof (call_eof_received t)).0 (eof-Keeps s t k) (
      Stays-Keeps t (pipe_eof (call_eof_received t)).0
        (ended t (call_eof_received t) (call_eof_received-Stays t)))
  where
    ended : (t : Reader) (r : Reader × Reply Bool) → Stays t r.0 → Stays t (pipe_eof r).0
    ended t (u, ok b) k =
        unfold pipe_eof in Stays-trans t u (force_close none u) k (force_close-Stays none u)
    ended t (u, raised e) k = unfold pipe_eof in k
pipe_read-Keeps s (t, got (x ∷ d)) k = hand-Keeps (x ∷ d) s t k

pipe_read_ready-Keeps : (s : Reader) → Keeps s (pipe_read_ready s)
unfolding pipe_read_ready pipe_guard aiofn_read
pipe_read_ready-Keeps s = ended (pipe_read (read_script data_received_max_size s.script s)) (
    pipe_read-Keeps s (read_script data_received_max_size s.script s)
      (read_script-Reads data_received_max_size s.script s))
  where
    ended : (r : Reader × Reply (Unit {0})) → Keeps s r.0 → Keeps s (pipe_guard r)
    ended (t, ok u) k = k
    ended (t, raised e) k = Keeps-trans s t (pipe_error e t) k (pipe_error-Keeps e t)

-- Every call and event but the first `add_reader`.
abbrev pub IsLater : Op → Type 0
IsLater add_reader_event = ⊥
IsLater _ = Unit {0}

step-Keeps : (o : Op) (s : Reader) → IsLater o → Keeps s (step o s)
unfolding step
step-Keeps (client_call a) s l = Stays-Keeps s (act a s) (act-Stays a s)
step-Keeps connection_made_event s l =
    Stays-Keeps s (call_connection_made s) (call_connection_made-Stays s)
step-Keeps add_reader_event s l = absurd l
step-Keeps read_event s l =
    if-cases (Keeps s) s.reader (read_ready s) s (λ _. read_ready-Keeps s) (λ _. Keeps-refl s)
step-Keeps pipe_event s l =
    if-cases (Keeps s) s.reader (pipe_read_ready s) s (λ _. pipe_read_ready-Keeps s)
      (λ _. Keeps-refl s)

later-Keeps : (ops : List Op) (s : Reader) → All IsLater ops → Keeps s (run ops s)
unfolding run
later-Keeps [] s l = Keeps-refl s
later-Keeps (o ∷ ops) s l =
    Keeps-trans s (step o s) (run ops (step o s)) (step-Keeps o s l.0)
      (later-Keeps ops (step o s) l.1)

-- Over every history of calls and events after the `add_reader` that the constructor schedules, and
-- before `_finalize_close` is called, on a transport that the event loop watches only while reading
-- is not paused, and that is paused if it is closing and closing if it is being finalized, whatever
-- the socket answers and the protocol does in its callbacks: the bytes that the protocol has been
-- handed, and then those that are still to be read, are the same sequence, so that no byte is lost,
-- made up or moved; what was said of watching, pausing and closing still holds; and a transport that
-- is closing stays so.
pub run-Keeps :
    (ops : List Op) (s : Reader)
    → All IsLater ops
    → IsWatching s
    → let t : Reader = run ops s in
      (t.handed ++ t.stream ≡ s.handed ++ s.stream)
      × IsWatching t
      × (s.closing ≡ true → t.closing ≡ true)
run-Keeps ops s l h = let k : Keeps s (run ops s) = later-Keeps ops s l in (k.0, k.1 h, k.2)

-- A transport that is closing hands nothing more to its protocol.
unwatched : (s : Reader) → IsWatching s → s.closing ≡ true → s.reader ≡ false
unwatched s h c = elim (Bool-cases s.reader) [
  | inl e ↦ let p : s.read_paused ≡ false = h.0 e in absurd (ground (arith, h.1 c))
  | inr e ↦ e
]

step-handed :
    (o : Op) (s : Reader)
    → IsLater o
    → IsWatching s
    → s.closing ≡ true
    → (step o s).handed ≡ s.handed
unfolding step
step-handed (client_call a) s l h c = (act-Stays a s).0.0
step-handed connection_made_event s l h c = (call_connection_made-Stays s).0.0
step-handed add_reader_event s l h c = absurd l
step-handed read_event s l h c =
    if-cases (λ t. t.handed ≡ s.handed) s.reader (read_ready s) s
      (λ e. let r : s.reader ≡ false = unwatched s h c in absurd (ground arith)) (λ _. refl)
step-handed pipe_event s l h c =
    if-cases (λ t. t.handed ≡ s.handed) s.reader (pipe_read_ready s) s
      (λ e. let r : s.reader ≡ false = unwatched s h c in absurd (ground arith)) (λ _. refl)

-- Once a transport is closing, and so is paused and not watched for reading, no history of calls and
-- events after the `add_reader` that the constructor schedules, and before `_finalize_close` is
-- called, hands its protocol a byte.
pub run-closing :
    (ops : List Op) (s : Reader)
    → All IsLater ops
    → IsWatching s
    → s.closing ≡ true
    → (run ops s).handed ≡ s.handed
unfolding run
run-closing [] s l h c = refl
run-closing (o ∷ ops) s l h c =
    let k : Keeps s (step o s) = step-Keeps o s l.0 in
    run-closing ops (step o s) l.1 (k.1 h) (k.2 c) ∙ step-handed o s l.0 h c
