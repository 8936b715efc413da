-- ===== src/Sock/Sendall.antt =====
-- `sock_sendall` of aiofastnet/api_sock.py.
use aiofastnet.Base.{
  ℕ, ◌+◌, min, Bool, none, some, List, [], ◌∷◌, ◌++◌, take, drop, length, if◌then◌else◌, ◌==◌,
}
use aiofastnet.Buffer.{Buffer, unpack, items}
use aiofastnet.Sock.{
  Outcome, done, retry, failed, Future, pending, result, exception, is_done, PySock, Error,
  check_socket, runtime_error,
}

-- `py_sock.send(d)` that is offered a count, which the answer bounds
abbrev pub send : Outcome ℕ → List ℕ → Outcome ℕ
send (done n) d = done (min n (length d))
send retry d = retry
send (failed e) d = failed e

pub record Sending : Type 0 where
  pub view : List ℕ
  pub sent : ℕ
  -- the bytes that the socket has taken
  pub wire : List ℕ
  pub future : Future (Unit {0})

pub data Reply : Type 0 where
  delegated : Reply
  raised : Error → Reply
  returned : (wire : List ℕ) → Reply
  awaits : Sending → Reply

abbrev pub sent_first : PySock → Buffer → ℕ → Reply
sent_first s b n =
    if n == items b
    then returned (take n (unpack b))
    else if s.owned
    then raised runtime_error
    else awaits (record { view = unpack b; sent = n; wire = take n (unpack b); future = pending })

-- `sock_sendall` until it awaits its future
unfoldable pub sock_sendall : Bool → PySock → Buffer → Outcome ℕ → Reply
sock_sendall fallback s b o = if fallback then delegated else elim (check_socket s) [
  | some e ↦ raised e
  | none ↦ elim (send o (unpack b)) [
    | done n ↦ sent_first s b n
    | retry ↦ sent_first s b 0
    | failed e ↦ raised e
  ]
]

unfoldable pub count_sent : ℕ → Sending → Sending
count_sent n s =
    let total = s.sent + n in
    record s {
      sent = total;
      wire = s.wire ++ take n (drop s.sent s.view);
      future = if total == length s.view then result tt else s.future;
    }

-- `ready`, under `_wrap_sock_ready_handler`
unfoldable pub sendall_ready : Outcome ℕ → Sending → Sending
unfolding count_sent
sendall_ready o s = if is_done s.future then s else elim (send o (drop s.sent s.view)) [
  | done n ↦ count_sent n s
  | retry ↦ s
  | failed e ↦ record s { future = exception e }
]

unfoldable pub sendall_run : List (Outcome ℕ) → Sending → Sending
unfolding sendall_ready
sendall_run [] s = s
sendall_run (o ∷ rest) s = sendall_run rest (sendall_ready o s)
