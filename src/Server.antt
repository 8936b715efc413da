-- ===== src/Server.antt =====
-- The listening server: `Server` of aiofastnet/api_utils.py. Sockets, transports, futures and
-- connections are named by numbers. The trace lists the calls to the event loop, to sockets and to
-- transports, newest first. Transports are held by weak references, which are taken to be alive.
pub mod Waiters
pub mod Readers
pub mod Accepting
pub mod Backlog
use aiofastnet.Base.{
  ℕ, zero, suc, ◌+◌, ◌≡◌, refl, Bool, true, false, ◌||◌, ◌&&◌, Option, none, some, List, [], ◌∷◌,
  ◌++◌, if◌then◌else◌, is_some, is_none, contains, add, discard, is_empty,
}

pub data Error : Type 0 where
  type_error attribute_error runtime_error assertion_error : Error
  os_error : ℕ → Error

pub data Event : Type 0 where
  listen : (sock backlog : ℕ) → Event
  add_reader remove_reader close_socket : ℕ → Event
  close_transport abort_transport : ℕ → Event
  -- `create_future()` of `serve_forever` and of `wait_closed`
  create_future create_waiter set_result cancel : ℕ → Event
  create_task : (conn : ℕ) → Event
  close_connection : (conn : ℕ) → Event
  -- `call_exception_handler` for a failed `accept`, and for a failed transport
  out_of_resource creation_error : Event

pub record Server : Type 0 where
  pub sockets : Option (List ℕ)
  pub clients : List ℕ
  pub waiters : Option (List ℕ)
  pub backlog : ℕ
  pub serving : Bool
  pub serving_forever_fut : Option ℕ
  -- of the event loop: the readers of this server, the futures that are done, and the next future
  pub readers : List ℕ
  pub done : List ℕ
  pub next_future : ℕ
  pub trace : List Event

pub data Reply : Type 0 where
  returned : Reply
  raised : Error → Reply

-- `Server.__init__`
unfoldable pub init : List ℕ → ℕ → Server
init sockets backlog = record {
  sockets = some sockets;
  clients = [];
  waiters = some [];
  backlog = backlog;
  serving = false;
  serving_forever_fut = none;
  readers = [];
  done = [];
  next_future = 0;
  trace = [];
}

abbrev pub emit : Event → Server → Server
emit e s = record s { trace = e ∷ s.trace }

-- `waiter.set_result(None)` on the waiters that are not done
unfoldable pub wake_all : List ℕ → List ℕ → List Event → List ℕ × List Event
wake_all [] done t = (done, t)
wake_all (w ∷ ws) done t =
    if contains w done then wake_all ws done t else wake_all ws (w ∷ done) (set_result w ∷ t)

-- `_wakeup`
unfoldable pub wakeup : Server → Server
unfolding wake_all
wakeup s = elim s.waiters [
  | none ↦ s
  | some ws ↦
      let (done, t) = wake_all ws s.done s.trace in
      record s { waiters = none; done = done; trace = t }
]

-- `_attach`
unfoldable pub attach : ℕ → Server → Server × Reply
attach transport s =
    if is_some s.sockets
    then (record s { clients = add transport s.clients }, returned)
    else (s, raised assertion_error)

-- `_detach`
unfoldable pub detach : ℕ → Server → Server
unfolding wakeup
detach transport s =
    let s1 = record s { clients = discard transport s.clients } in
    if is_empty s1.clients && is_none s1.sockets then wakeup s1 else s1

-- the loop of `_start_serving`, with `_start_serving_one_listener`: the loop holds one reader for a
-- socket
unfoldable pub listen_all : List ℕ → ℕ → List ℕ → List Event → List ℕ × List Event
listen_all [] backlog readers t = (readers, t)
listen_all (sock ∷ socks) backlog readers t =
    listen_all socks backlog (add sock readers) (add_reader sock ∷ listen sock backlog ∷ t)

-- `_start_serving`: the loop over `None` raises after `_serving` is set
unfoldable pub start_serving : Server → Server × Reply
unfolding listen_all
start_serving s =
    if s.serving
    then (s, returned)
    else let s1 = record s { serving = true } in
      elim s1.sockets [
        | none ↦ (s1, raised type_error)
        | some socks ↦
            let (readers, t) = listen_all socks s1.backlog s1.readers s1.trace in
            (record s1 { readers = readers; trace = t }, returned)
      ]

unfoldable pub close_sockets : List ℕ → List ℕ → List Event → List ℕ × List Event
close_sockets [] readers t = (readers, t)
close_sockets (sock ∷ socks) readers t =
    close_sockets socks (discard sock readers) (close_socket sock ∷ remove_reader sock ∷ t)

-- `self._serving_forever_fut.cancel()` and the reset, where it is not done
unfoldable pub cancel_serving_forever : Server → Server
cancel_serving_forever s = elim s.serving_forever_fut [
  | none ↦ s
  | some f ↦
      if contains f s.done
      then s
      else emit (cancel f) (record s { serving_forever_fut = none; done = f ∷ s.done })
]

-- `close` of an open server
unfoldable pub close_open : List ℕ → Server → Server
unfolding close_sockets cancel_serving_forever wakeup
close_open socks s =
    let (readers, t) = close_sockets socks s.readers s.trace in
    let s1 = record s { sockets = none; readers = readers; trace = t; serving = false } in
    let s2 = cancel_serving_forever s1 in if is_empty s2.clients then wakeup s2 else s2

-- `close`
unfoldable pub close : Server → Server
unfolding close_open
close s = elim s.sockets [ none ↦ s | some socks ↦ close_open socks s ]

-- `close_clients` and `abort_clients`, over a copy of the clients
unfoldable pub call_clients : (ℕ → Event) → List ℕ → List Event → List Event
call_clients call [] t = t
call_clients call (c ∷ cs) t = call_clients call cs (call c ∷ t)

unfoldable pub close_clients : Server → Server
unfolding call_clients
close_clients s = record s { trace = call_clients close_transport s.clients s.trace }

unfoldable pub abort_clients : Server → Server
unfolding call_clients
abort_clients s = record s { trace = call_clients abort_transport s.clients s.trace }

-- `serve_forever` until it awaits its future
unfoldable pub serve_forever : Server → Server × Reply
unfolding start_serving
serve_forever s =
    if is_some s.serving_forever_fut
    then (s, raised runtime_error)
    else if is_none s.sockets
    then (s, raised runtime_error)
    else let s1 = (start_serving s).0 in
      (
        emit (create_future s1.next_future) (record s1 {
          serving_forever_fut = some s1.next_future;
          next_future = suc s1.next_future;
        }),
        returned,
      )

-- `wait_closed`, and the future that it awaits if it does not return at once
unfoldable pub wait_closed : Server → Server × Option ℕ
wait_closed s = elim s.waiters [
  | none ↦ (s, none)
  | some ws ↦ (
    emit (create_waiter s.next_future)
        (record s { waiters = some (ws ++ (s.next_future ∷ [])); next_future = suc s.next_future }),
    some s.next_future,
  )
]

-- `serve_forever` whose future was cancelled, until it awaits `wait_closed`
unfoldable pub serve_forever_cancelled : Server → Server × Option ℕ
unfolding close wait_closed
serve_forever_cancelled s = wait_closed (close s)

-- the `finally` of `serve_forever`
unfoldable pub leave_serve_forever : Server → Server
leave_serve_forever s = record s { serving_forever_fut = none }
