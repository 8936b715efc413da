-- ===== src/Reading/Still.antt =====
-- What the calls of a client and of a protocol do to the read side of a transport: they move no
-- bytes (aiofastnet/transport.pyx).
use aiofastnet.Base.{
  ℕ, ◌≡◌, refl, ◌∙◌, Bool, true, false, not, ◌||◌, Option, none, some, List, [], ◌∷◌, if◌then◌else◌,
  if-cases, arith,
}
use aiofastnet.Reading.{
  Action, pause, resume, close_it, abort_it, switch, Reaction, Exc, os_error, protocol_error,
  empty_buffer, add_reader, remove_reader, eof_received, exception_handler, Reader, emit,
  pause_reading_now, pause_reading, resume_reading, schedule_finalize_close, close_now, close,
  start_closing, force_close, handle_error, act, act_all, react, Reply, ok, raised, eof_answer,
  after_eof, buffer_size, buffer_answer, get_buffer, call_connection_made, call_eof_received,
  on_eof,
}

-- The event loop watches only a transport that is not paused; one that is closing is paused, and one
-- that is being finalized is closing.
abbrev pub IsWatching : Reader → Type 0
IsWatching s =
    (s.reader ≡ true → s.read_paused ≡ false)
    × (s.closing ≡ true → s.read_paused ≡ true)
    × (s.finalizing_close ≡ true → s.closing ≡ true)

-- The bytes stay where they are, and a close is for good.
abbrev pub Stays : Reader → Reader → Type 0
Stays s t =
    ((t.handed ≡ s.handed) × (t.stream ≡ s.stream))
    × (IsWatching s → IsWatching t)
    × (s.closing ≡ true → t.closing ≡ true)

pub Stays-refl : (s : Reader) → Stays s s
Stays-refl s = ((refl, refl), (λ h. h), λ c. c)

pub Stays-trans : (s t u : Reader) → Stays s t → Stays t u → Stays s u
Stays-trans s t u k l = ((l.0.0 ∙ k.0.0, l.0.1 ∙ k.0.1), (λ h. l.1 (k.1 h)), λ c. l.2 (k.2 c))

-- Pausing, resuming and closing.
pub pause_reading_now-Stays : (s : Reader) → Stays s (pause_reading_now s)
unfolding pause_reading_now
pause_reading_now-Stays s =
    if-cases (Stays s) s.read_paused s
      (emit remove_reader (record s { read_paused = true; reader = false })) (λ _. Stays-refl s)
      (λ _. ((refl, refl), (λ h. ((λ e. absurd (ground arith)), (λ _. refl), h.2)), λ c. c))

pub pause_reading-Stays : (s : Reader) → Stays s (pause_reading s)
unfolding pause_reading
pause_reading-Stays s =
    if-cases (Stays s) (s.closing || s.read_paused) s (pause_reading_now s) (λ _. Stays-refl s)
      (λ _. pause_reading_now-Stays s)

pub resume_reading-Stays : (s : Reader) → Stays s (resume_reading s)
unfolding resume_reading
resume_reading-Stays s =
    if-cases (Stays s) (s.closing || not s.read_paused) s
      (emit add_reader (record s { read_paused = false; reader = true })) (λ _. Stays-refl s)
      (λ e. ((refl, refl), (λ h. ((λ _. refl), (λ c. absurd (ground arith)), h.2)), λ c. c))

closing_now : (s : Reader) → (pause_reading_now s).closing ≡ s.closing
unfolding pause_reading_now
closing_now s =
    if-cases (λ t. t.closing ≡ s.closing) s.read_paused s
      (emit remove_reader (record s { read_paused = true; reader = false })) (λ _. refl) (λ _. refl)

-- A close, by either way.
pub shut-Stays : (s : Reader) → Stays s (pause_reading_now (record s { closing = true }))
unfolding pause_reading_now
shut-Stays s =
    let t : Reader = record s { closing = true } in
    if-cases (Stays s) s.read_paused t
      (emit remove_reader (record t { read_paused = true; reader = false }))
      (λ e. ((refl, refl), (λ h. (h.0, (λ _. e), λ _. refl)), λ _. refl))
      (λ _.
        ((refl, refl), (λ h. ((λ e. absurd (ground arith)), (λ _. refl), λ _. refl)), λ _. refl))

pub finalize-Stays :
    (exc : Option Exc) (s : Reader) → s.closing ≡ true → Stays s (schedule_finalize_close exc s)
unfolding schedule_finalize_close
finalize-Stays exc s c = ((refl, refl), (λ h. (h.0, h.1, λ _. c)), λ d. d)

pub close-Stays : (s : Reader) → Stays s (close s)
unfolding close close_now
close-Stays s =
    let t : Reader = pause_reading_now (record s { closing = true }) in
    if-cases (Stays s) s.closing s (if t.backlog_empty then schedule_finalize_close none t else t)
      (λ _. Stays-refl s)
      (λ _.
        if-cases (Stays s) t.backlog_empty (schedule_finalize_close none t) t
          (λ _.
            Stays-trans s t (schedule_finalize_close none t) (shut-Stays s)
              (finalize-Stays none t (closing_now (record s { closing = true }))))
          (λ _. shut-Stays s))

pub start_closing-Stays :
    (s : Reader) → Stays s (start_closing s) × ((start_closing s).closing ≡ true)
unfolding start_closing
start_closing-Stays s =
    if-cases (λ t. Stays s t × (t.closing ≡ true)) s.closing s
      (pause_reading_now (record s { closing = true })) (λ c. (Stays-refl s, c))
      (λ _. (shut-Stays s, closing_now (record s { closing = true })))

pub force_close-Stays : (exc : Option Exc) (s : Reader) → Stays s (force_close exc s)
unfolding force_close
force_close-Stays exc s =
    let t : Reader = record s { backlog_empty = true } in
    let u : Reader = start_closing t in
    let k : Stays t u × (u.closing ≡ true) = start_closing-Stays t in
    if-cases (Stays s) s.finalizing_close s (schedule_finalize_close exc u) (λ _. Stays-refl s)
      (λ _. Stays-trans s u (schedule_finalize_close exc u) k.0 (finalize-Stays exc u k.1))

pub handle_error-Stays : (e : Exc) (s : Reader) → Stays s (handle_error e s)
unfolding handle_error
handle_error-Stays (os_error n) s = force_close-Stays (some (os_error n)) s
handle_error-Stays protocol_error s =
    force_close-Stays (some protocol_error) (emit (exception_handler protocol_error) s)
handle_error-Stays empty_buffer s =
    force_close-Stays (some empty_buffer) (emit (exception_handler empty_buffer) s)

pub act-Stays : (a : Action) (s : Reader) → Stays s (act a s)
unfolding act
act-Stays pause s = pause_reading-Stays s
act-Stays resume s = resume_reading-Stays s
act-Stays close_it s = close-Stays s
act-Stays abort_it s = force_close-Stays none s
act-Stays (switch b) s = Stays-refl s

pub act_all-Stays : (rest : List Action) (s : Reader) → Stays s (act_all rest s)
unfolding act_all
act_all-Stays [] s = Stays-refl s
act_all-Stays (a ∷ rest) s =
    Stays-trans s (act a s) (act_all rest (act a s)) (act-Stays a s) (act_all-Stays rest (act a s))

pub react-Stays : (rs : List Reaction) (s : Reader) → Stays s (react rs s).0
unfolding react
react-Stays [] s = Stays-refl s
react-Stays (r ∷ rs) s = act_all-Stays r.actions (record s { reactions = rs })

pub call_eof_received-Stays : (s : Reader) → Stays s (call_eof_received s).0
unfolding call_eof_received eof_answer
call_eof_received-Stays s =
    let t : Reader = emit eof_received (record s { protocol_eof_received = true }) in
    if-cases {A = Reader × Reply Bool} (λ r. Stays s r.0)
      (not s.protocol_connected || s.protocol_eof_received) (s, ok false)
      (eof_answer s.keep_open (react s.reactions t)) (λ _. Stays-refl s)
      (λ _. answered (react s.reactions t) (react-Stays s.reactions t))
  where
    answered : (r : Reader × Reply (Unit {0})) → Stays s r.0 → Stays s (eof_answer s.keep_open r).0
    answered (t, ok u) k = k
    answered (t, raised e) k = k

pub on_eof-Stays : (s : Reader) → Stays s (on_eof s).0
unfolding on_eof after_eof
on_eof-Stays s = after (call_eof_received s) (call_eof_received-Stays s)
  where
    after : (r : Reader × Reply Bool) → Stays s r.0 → Stays s (after_eof r).0
    after (t, raised e) k = k
    after (t, ok true) k = (k.0, (λ h. ((λ e. absurd (ground arith)), (k.1 h).1, (k.1 h).2)), k.2)
    after (t, ok false) k = Stays-trans s t (close t) k (close-Stays t)

pub get_buffer-Stays : (sizes : List ℕ) (s : Reader) → Stays s (get_buffer sizes s).0
unfolding get_buffer buffer_answer
get_buffer-Stays sizes s = answered (react s.reactions s) (react-Stays s.reactions s)
  where
    sized : (ns : List ℕ) (t : Reader) → Stays t (buffer_size ns t).0
    sized [] t = unfold buffer_size in Stays-refl t
    sized (n ∷ ns) t = unfold buffer_size in ((refl, refl), (λ h. h), λ c. c)

    answered : (r : Reader × Reply (Unit {0})) → Stays s r.0 → Stays s (buffer_answer sizes r).0
    answered (t, ok u) k = Stays-trans s t (buffer_size sizes t).0 k (sized sizes t)
    answered (t, raised e) k = k

pub call_connection_made-Stays : (s : Reader) → Stays s (call_connection_made s)
unfolding call_connection_made
call_connection_made-Stays s =
    let t : Reader = record s { protocol_connected = true } in
    if-cases (Stays s) (s.protocol_connected || s.finalizing_close) s (react s.reactions t).0
      (λ _. Stays-refl s) (λ _. react-Stays s.reactions t)
