-- ===== src/Sock.antt =====
-- The socket coroutines of the event loop (aiofastnet/api_sock.py). A coroutine that must wait is
-- its future and its callback in the event loop; what the socket answers to each call is chosen by
-- the environment.
pub mod Sendall
pub mod Waits
pub mod Sends
pub mod Finish
use aiofastnet.Base.{
  ℕ, zero, suc, Bool, true, false, ◌||◌, ◌&&◌, Option, none, some, List, [], ◌∷◌, if◌then◌else◌,
  ◌==◌,
}

pub data Error : Type 0 where
  type_error value_error runtime_error : Error
  os_error : ℕ → Error

-- A call on a socket: its result, `BlockingIOError` or `InterruptedError`, or another exception.
pub data Outcome {ℓ} (R : Type ℓ) : Type ℓ where
  done : R → Outcome R
  retry : Outcome R
  failed : Error → Outcome R

pub data Future {ℓ} (R : Type ℓ) : Type ℓ where
  pending : Future R
  result : R → Future R
  exception : Error → Future R
  cancelled : Future R

abbrev pub is_done {ℓ} : {R : Type ℓ} → Future R → Bool
is_done pending = false
is_done _ = true

pub data Side : Type 0 where
  reader writer : Side

pub record PySock : Type 0 where
  pub is_ssl : Bool
  pub blocking : Bool
  pub inet : Bool
  -- whether a transport of the loop owns the descriptor
  pub owned : Bool

pub data Reply {ℓ} (R : Type ℓ) : Type ℓ where
  -- the call of the loop's original method
  delegated : Reply R
  raised : Error → Reply R
  returned : R → Reply R
  -- awaits a future, with a callback on that side of the descriptor
  awaits : Side → Reply R

-- `_check_non_ssl_socket` and `_check_nonblocking_socket` of aiofastnet/api_utils.py
unfoldable pub check_socket : PySock → Option Error
check_socket s = if s.is_ssl then some type_error else if s.blocking then some value_error else none

-- `_ensure_fd_no_transport`, and the callback and the future
abbrev pub wait_on {ℓ} : {R : Type ℓ} → Side → PySock → Reply R
wait_on side s = if s.owned then raised runtime_error else awaits side

unfoldable pub try_or_wait {ℓ} : {R : Type ℓ} → Side → PySock → Outcome R → Reply R
try_or_wait side s (done r) = returned r
try_or_wait side s retry = wait_on side s
try_or_wait side s (failed e) = raised e

abbrev pub sock_call {ℓ} : {R : Type ℓ} → Side → Bool → PySock → Outcome R → Reply R
sock_call side fallback s o =
    if fallback
    then delegated
    else elim (check_socket s) [ some e ↦ raised e | none ↦ try_or_wait side s o ]

-- `sock_accept`: the connection and the peer's address
unfoldable pub sock_accept : Bool → PySock → Outcome (ℕ × ℕ) → Reply (ℕ × ℕ)
unfolding try_or_wait check_socket
sock_accept fallback s o = sock_call reader fallback s o

unfoldable pub sock_recv : Bool → PySock → Outcome (List ℕ) → Reply (List ℕ)
unfolding try_or_wait check_socket
sock_recv fallback s o = sock_call reader fallback s o

-- the count of bytes that `recv_into` wrote into the buffer
unfoldable pub sock_recv_into : Bool → PySock → Outcome ℕ → Reply ℕ
unfolding try_or_wait check_socket
sock_recv_into fallback s o = sock_call reader fallback s o

unfoldable pub sock_recvfrom : Bool → PySock → Outcome (List ℕ × ℕ) → Reply (List ℕ × ℕ)
unfolding try_or_wait check_socket
sock_recvfrom fallback s o = sock_call reader fallback s o

unfoldable pub sock_recvfrom_into : Bool → PySock → Outcome (ℕ × ℕ) → Reply (ℕ × ℕ)
unfolding try_or_wait check_socket
sock_recvfrom_into fallback s o = sock_call reader fallback s o

unfoldable pub sock_sendto : Bool → PySock → Outcome ℕ → Reply ℕ
unfolding try_or_wait check_socket
sock_sendto fallback s o = sock_call writer fallback s o

-- `_ensure_resolved` of `sock_connect`, on an internet socket
abbrev pub resolve_error : PySock → Option Error → Option Error
resolve_error s e = if s.inet then e else none

-- `sock_connect`, where `resolving` is the exception of the name resolution
unfoldable pub sock_connect : Bool → PySock → Option Error → Outcome (Unit {0}) → Reply (Unit {0})
unfolding try_or_wait check_socket
sock_connect fallback s resolving o = elim (check_socket s) [
  | some e ↦ raised e
  | none ↦ elim (resolve_error s resolving) [
    | some e ↦ raised e
    | none ↦ if fallback then delegated else try_or_wait writer s o
  ]
]

-- The future that a coroutine awaits, whether its callback is registered, and the answers of the
-- socket that it has not asked for.
pub record Waiting {ℓ} (R : Type ℓ) : Type ℓ where
  pub future : Future R
  pub registered : Bool
  pub answers : List (Outcome R)

-- `_wrap_sock_ready_handler(future, ready)`, where `ready` sets the result of one call
unfoldable pub ready {ℓ} : {R : Type ℓ} → Waiting R → Waiting R
ready w = if is_done w.future then w else elim w.answers [
  | [] ↦ w
  | done r ∷ rest ↦ record w { future = result r; answers = rest }
  | retry ∷ rest ↦ record w { answers = rest }
  | failed e ∷ rest ↦ record w { future = exception e; answers = rest }
]

-- the future's done callback: `remove_reader` or `remove_writer`
unfoldable pub done_callback {ℓ} : {R : Type ℓ} → Waiting R → Waiting R
done_callback w = if is_done w.future then record w { registered = false } else w

-- The callback runs so often, whether or not it is still registered.
unfoldable pub poll {ℓ} : {R : Type ℓ} → ℕ → Waiting R → Waiting R
unfolding ready
poll zero w = w
poll (suc n) w = poll n (ready w)

-- `ready` of `sock_connect`: the value of `SO_ERROR`
abbrev pub connect_outcome : ℕ → Outcome (Unit {0})
connect_outcome error = if error == 0 then done tt else failed (os_error error)
