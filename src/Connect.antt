-- ===== src/Connect.antt =====
-- `create_connection` and `_connect_sock` of aiofastnet/api_create_connection.py. What the operating
-- system answers to an attempt is chosen by the environment; the trace lists the sockets that are
-- opened and closed, newest first.
pub mod Interleave
pub mod Order
pub mod Ownership
use aiofastnet.Base.{
  ℕ, zero, suc, Bool, true, false, not, ◌||◌, ◌&&◌, Option, none, some, List, [], ◌∷◌, ◌++◌, ◌==◌,
  if◌then◌else◌, is_some, is_none, is_empty, length, ◌⊎◌, inl, inr,
}
use aiofastnet.Connect.Interleave.{AddrInfo, interleave_addrinfos}

pub data Exc : Type 0 where
  -- an `OSError` of the system, and the one that `_connect_sock` makes of a failed `bind`
  os_error : ℕ → Exc
  bind_error : (address errno : ℕ) → Exc
  no_local_address : (family : ℕ) → Exc
  empty_addresses : Exc
  -- an exception that is no `OSError`, such as `CancelledError`
  other : ℕ → Exc
  value_error type_error index_error timeout_error : Exc

abbrev pub is_os_error : Exc → Bool
is_os_error (os_error _) = true
is_os_error (bind_error _ _) = true
is_os_error (no_local_address _) = true
is_os_error empty_addresses = true
is_os_error timeout_error = true
is_os_error _ = false

pub data Event : Type 0 where
  opened closed : Event

-- How the system answers one attempt: `socket.socket(...)`, `bind` to a local address, and
-- `sock_connect`; `none` is success.
pub record Attempt : Type 0 where
  pub create : Option Exc
  pub bind : ℕ → Option ℕ
  pub connect : Option Exc

-- The `for` loop over the local addresses, with the errors so far, and whether it broke off.
unfoldable pub bind_local : ℕ → (ℕ → Option ℕ) → List AddrInfo → List Exc → List Exc × Bool
bind_local family bind [] errors = (errors, false)
bind_local family bind (l ∷ rest) errors =
    if not (l.family == family) then bind_local family bind rest errors else elim (bind l.address) [
      | none ↦ (errors, true)
      | some errno ↦ bind_local family bind rest (errors ++ (bind_error l.address errno ∷ []))
    ]

abbrev pub init_last : Exc → List Exc → List Exc × Exc
init_last x [] = ([], x)
init_last x (y ∷ ys) = let (front, last) = init_last y ys in (x ∷ front, last)

-- The errors that are kept and the exception that is raised when no local address could be bound:
-- `my_exceptions.pop()` or the `OSError` that none matches.
abbrev pub bind_failure : ℕ → List Exc → List Exc × Exc
bind_failure family [] = ([], no_local_address family)
bind_failure family (x ∷ xs) = init_last x xs

-- `my_exceptions` and the exception that ends the attempt, if any, after the socket is there.
unfoldable pub bind_then_connect :
    Attempt → AddrInfo → Option (List AddrInfo) → List Exc × Option Exc
unfolding bind_local
bind_then_connect a info locals =
    let bound : List Exc × Bool = elim locals [
      | none ↦ ([], true)
      | some ls ↦ bind_local info.family a.bind ls []
    ] in
    if bound.1
    then (bound.0, a.connect)
    else let (kept, e) = bind_failure info.family bound.0 in (kept, some e)

-- `except OSError: my_exceptions.append(exc)`
abbrev pub note : List Exc → Exc → List Exc
note errors e = if is_os_error e then errors ++ (e ∷ []) else errors

pub record Connected : Type 0 where
  -- `my_exceptions`
  pub errors : List Exc
  pub raised : Option Exc
  pub trace : List Event

-- `_connect_sock`: a failed attempt closes its socket.
unfoldable pub connect_sock : Attempt → AddrInfo → Option (List AddrInfo) → List Event → Connected
unfolding bind_then_connect
connect_sock a info locals t = elim a.create [
  | some e ↦ record { errors = note [] e; raised = some e; trace = t }
  | none ↦
      let (errors, end) = bind_then_connect a info locals in
      elim end [
        | none ↦ record { errors = errors; raised = none; trace = opened ∷ t }
        | some e ↦ record { errors = note errors e; raised = some e; trace = closed ∷ opened ∷ t }
      ]
]

pub data Loop : Type 0 where
  -- `sock` is set, the loop ran out, or an exception that is no `OSError` left it
  connected : List Event → Loop
  exhausted : (exceptions : List (List Exc)) → List Event → Loop
  left : Exc → List Event → Loop

-- The `for` loop over the addresses, without happy eyeballs.
unfoldable pub try_addresses :
    (AddrInfo → Attempt)
    → Option (List AddrInfo)
    → List AddrInfo
    → List (List Exc)
    → List Event
    → Loop
unfolding connect_sock
try_addresses os locals [] exceptions t = exhausted exceptions t
try_addresses os locals (info ∷ infos) exceptions t =
    let c = connect_sock (os info) info locals t in
    let rest = try_addresses os locals infos (exceptions ++ (c.errors ∷ [])) c.trace in
    elim c.raised [
      | none ↦ connected c.trace
      | some e ↦ if is_os_error e then rest else left e c.trace
    ]

abbrev pub concat : List (List Exc) → List Exc
concat [] = []
concat (es ∷ ess) = es ++ concat ess

unfoldable pub all_same : (Exc → Exc → Bool) → Exc → List Exc → Bool
all_same same_text model [] = true
all_same same_text model (e ∷ es) = same_text e model && all_same same_text model es

pub data Failure : Type 0 where
  single : Exc → Failure
  -- `ExceptionGroup("create_connection failed", ...)`, and the `OSError` that joins the texts
  exception_group : List Exc → Failure
  multiple_exceptions : List Exc → Failure

-- The exception that is raised when no address connects; `same_text` compares `str(exc)`, and an
-- `ExceptionGroup` of nothing is a `ValueError`.
unfoldable pub failure : (Exc → Exc → Bool) → Bool → List Exc → Failure
unfolding all_same
failure same_text all_errors [] = if all_errors then single value_error else single timeout_error
failure same_text all_errors (e ∷ es) =
    if all_errors
    then exception_group (e ∷ es)
    else if is_empty es
    then single e
    else if all_same same_text e (e ∷ es)
    then single e
    else multiple_exceptions (e ∷ es)

-- The arguments, each with what the code asks of it.
pub record Request : Type 0 where
  -- `host is not None`, its truth value, and `port is not None`
  pub host_given : Bool
  pub host_truth : Bool
  pub port_given : Bool
  pub ssl : Bool
  pub hostname_given : Bool
  -- what `_validate_ssl_timeout` and `_validate_bio_size` raise
  pub invalid : Option Exc
  -- whether `sock` is an SSL socket, and whether it is a stream socket
  pub sock : Option (Bool × Bool)
  pub local_addr : Bool
  pub happy_eyeballs : Bool
  pub interleave : Option ℕ
  pub all_errors : Bool

-- What is not in this file: name resolution, the system, `str`, the race of happy eyeballs, and
-- `_create_connection_transport`, which raises or makes a transport.
pub record World : Type 0 where
  pub resolve : Exc ⊎ List AddrInfo
  pub resolve_local : Exc ⊎ List AddrInfo
  pub attempt : AddrInfo → Attempt
  pub race : List AddrInfo → Option (List AddrInfo) → Loop
  pub same_text : Exc → Exc → Bool
  pub make_transport : Option Exc

pub data Result : Type 0 where
  -- a transport over the socket
  transport : List Event → Result
  failed : Failure → List Event → Result

abbrev pub check_arguments : Request → Option Exc
check_arguments r =
    if r.hostname_given && not r.ssl
    then some value_error
    else if not r.hostname_given && r.ssl && not r.host_truth
    then some value_error
    else if is_some r.invalid
    then r.invalid
    else elim r.sock [ none ↦ none | some (is_ssl, _) ↦ if is_ssl then some type_error else none ]

abbrev pub owns_sock : Request → Bool
owns_sock r = r.host_given || r.port_given

-- The end of `create_connection`, once there is a socket: it is closed on an error if it is owned.
abbrev pub finish : World → Bool → List Event → Result
finish w owned t = elim w.make_transport [
  | none ↦ transport t
  | some e ↦ failed (single e) (if owned then closed ∷ t else t)
]

abbrev pub after_loop : World → Bool → Loop → Result
after_loop w all_errors (connected t) = finish w true t
after_loop w all_errors (exhausted ess t) = failed (failure w.same_text all_errors (concat ess)) t
after_loop w all_errors (left e t) = failed (single e) t

-- `interleave`: 1 with happy eyeballs, if it is not given; 0 does nothing.
abbrev pub interleaved : Request → List AddrInfo → Option (List AddrInfo)
interleaved r infos = elim r.interleave [
  | none ↦ if r.happy_eyeballs then interleave_addrinfos infos 1 else some infos
  | some n ↦ if n == 0 then some infos else interleave_addrinfos infos n
]

unfoldable pub connect_any : Request → World → List AddrInfo → Option (List AddrInfo) → Result
unfolding try_addresses failure
connect_any r w infos locals = elim (interleaved r infos) [
  | none ↦ failed (single index_error) []
  | some order ↦
      after_loop w r.all_errors (
        if r.happy_eyeballs
        then w.race order locals
        else try_addresses w.attempt locals order [] [])
]

unfoldable pub connect_to_host : Request → World → Result
unfolding connect_any
connect_to_host r w = elim w.resolve [
  | inl e ↦ failed (single e) []
  | inr [] ↦ failed (single empty_addresses) []
  | inr (info ∷ infos) ↦
      if r.local_addr
      then elim w.resolve_local [
        | inl e ↦ failed (single e) []
        | inr [] ↦ failed (single empty_addresses) []
        | inr (l ∷ ls) ↦ connect_any r w (info ∷ infos) (some (l ∷ ls))
      ]
      else connect_any r w (info ∷ infos) none
]

unfoldable pub create_connection : Request → World → Result
unfolding connect_to_host
create_connection r w = elim (check_arguments r) [
  | some e ↦ failed (single e) []
  | none ↦
      if owns_sock r
      then if is_some r.sock then failed (single value_error) [] else connect_to_host r w
      else elim r.sock [
        | none ↦ failed (single value_error) []
        | some (_, stream) ↦ if stream then finish w false [] else failed (single value_error) []
      ]
]
