-- ===== src/Server/Accepting.antt =====
-- Accepting connections, and the calls that reach a server (`_accept_connection` and
-- `_accept_connection2` of aiofastnet/api_utils.py). A task of `_accept_connection2` is two steps,
-- before and after it awaits its transport.
use aiofastnet.Base.{ℕ, zero, suc, Bool, List, [], ◌∷◌, if◌then◌else◌, is_none, contains}
use aiofastnet.Server.{
  Server, attribute_error, os_error, Event, Reply, returned, raised, out_of_resource,
  creation_error, create_task, close_connection, abort_transport, emit, attach, detach, close,
  close_clients, abort_clients, start_serving, serve_forever, serve_forever_cancelled,
  leave_serve_forever, wait_closed,
}

-- What `listening_sock.accept()` does; without an answer it would block.
pub data Accept : Type 0 where
  connection : (conn : ℕ) → Accept
  connection_aborted blocking_io : Accept
  accept_error : (errno : ℕ) → Accept

-- `EMFILE`, `ENFILE`, `ENOBUFS` and `ENOMEM` of Linux
abbrev pub resource_errnos : List ℕ
resource_errnos = 24 ∷ 23 ∷ 105 ∷ 12 ∷ []

-- The loop of `_accept_connection`. A socket has no `remove_reader`, so the handler of an error
-- that is in the list raises `AttributeError` there.
unfoldable pub accept_loop : ℕ → List Accept → Server → Server × Reply
accept_loop zero answers s = (s, returned)
accept_loop (suc n) [] s = (s, returned)
accept_loop (suc n) (connection conn ∷ answers) s =
    accept_loop n answers (emit (create_task conn) s)
accept_loop (suc n) (connection_aborted ∷ answers) s = accept_loop n answers s
accept_loop (suc n) (blocking_io ∷ answers) s = (s, returned)
accept_loop (suc n) (accept_error errno ∷ answers) s =
    if contains errno resource_errnos
    then (emit out_of_resource s, raised attribute_error)
    else (s, raised (os_error errno))

unfoldable pub accept_connection : List Accept → Server → Server × Reply
unfolding accept_loop
accept_connection answers s = accept_loop (suc s.backlog) answers s

-- `_accept_connection2` until it awaits `_create_connection_transport`
unfoldable pub accept_begin : ℕ → Server → Server
accept_begin conn s = if is_none s.sockets then emit (close_connection conn) s else s

-- How `_create_connection_transport` ends: with a transport, with an exception, or with
-- `SystemExit` or `KeyboardInterrupt`.
pub data Creation : Type 0 where
  created : (transport : ℕ) → Creation
  failed exited : Creation

-- `_accept_connection2` after that
unfoldable pub accept_end : Bool → ℕ → Creation → Server → Server
unfolding attach
accept_end debug conn (created t) s =
    if is_none s.sockets then emit (abort_transport t) s else (attach t s).0
accept_end debug conn failed s =
    let s1 = emit (close_connection conn) s in if debug then emit creation_error s1 else s1
accept_end debug conn exited s = s

pub data Op : Type 0 where
  accept_call : List Accept → Op
  begin_call : (conn : ℕ) → Op
  end_call : (debug : Bool) (conn : ℕ) → Creation → Op
  transport_finalized : (transport : ℕ) → Op
  close_call close_clients_call abort_clients_call start_serving_call serve_forever_call : Op
  serve_forever_cancelled_call leave_serve_forever_call wait_closed_call : Op
  -- someone else cancels or settles a future
  future_done : (f : ℕ) → Op

unfoldable pub step : Op → Server → Server
step (accept_call answers) s = (accept_connection answers s).0
step (begin_call conn) s = accept_begin conn s
step (end_call debug conn c) s = accept_end debug conn c s
step (transport_finalized t) s = detach t s
step close_call s = close s
step close_clients_call s = close_clients s
step abort_clients_call s = abort_clients s
step start_serving_call s = (start_serving s).0
step serve_forever_call s = (serve_forever s).0
step serve_forever_cancelled_call s = (serve_forever_cancelled s).0
step leave_serve_forever_call s = leave_serve_forever s
step wait_closed_call s = (wait_closed s).0
step (future_done f) s = record s { done = f ∷ s.done }

unfoldable pub run : List Op → Server → Server
run [] s = s
run (op ∷ ops) s = run ops (step op s)

-- The connections of a trace that got a task.
abbrev pub tasks : List Event → List ℕ
tasks [] = []
tasks (create_task conn ∷ t) = conn ∷ tasks t
tasks (_ ∷ t) = tasks t

-- The connections that the answers bring before `accept` blocks or fails.
abbrev pub arriving : ℕ → List Accept → List ℕ
arriving zero answers = []
arriving (suc n) [] = []
arriving (suc n) (connection conn ∷ answers) = conn ∷ arriving n answers
arriving (suc n) (connection_aborted ∷ answers) = arriving n answers
arriving (suc n) (_ ∷ answers) = []
