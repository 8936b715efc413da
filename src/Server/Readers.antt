-- ===== src/Server/Readers.antt =====
-- What the event loop watches for a server (aiofastnet/api_utils.py).
use aiofastnet.Server.Waiters.{Within}
use aiofastnet.Base.{
  ℕ, zero, suc, ◌≡◌, refl, sym, subst, ◌∙◌, Bool, true, false, ◌&&◌, Option, none, some, List, [],
  ◌∷◌, if◌then◌else◌, if-cases, is_some, is_none, contains, add, discard, is_empty, contains-add_ne,
  contains-discard_ne, contains-discard_self, inl, inr, Bool-cases, arith, ◌==◌,
}
use aiofastnet.Server.{
  Server, Event, create_task, close_socket, remove_reader, add_reader, listen, emit, init, wakeup,
  attach, detach, close, close_sockets, close_open, Reply, returned, raised, type_error,
  runtime_error, close_connection, create_future, cancel_serving_forever, close_clients,
  abort_clients, start_serving, listen_all, serve_forever, serve_forever_cancelled,
  leave_serve_forever, wait_closed,
}
use aiofastnet.Server.Accepting.{
  Accept, connection, connection_aborted, blocking_io, accept_error, accept_loop, accept_connection,
  accept_begin, accept_end, Creation, created, failed, exited, Op, accept_call, begin_call,
  end_call, transport_finalized, close_call, close_clients_call, abort_clients_call,
  start_serving_call, serve_forever_call, serve_forever_cancelled_call, leave_serve_forever_call,
  wait_closed_call, future_done, step, run,
}

abbrev pub listed : Option (List ℕ) → List ℕ
listed none = []
listed (some socks) = socks

-- The event loop watches only listening sockets that the server has not closed.
abbrev pub IsWatched : Server → Type 0
IsWatched s = Within s.readers (listed s.sockets)

-- `readers` are those of before and the listed sockets.
listen_all-Within :
    (socks all : List ℕ) (backlog : ℕ) (readers : List ℕ) (t : List Event)
    → Within socks all
    → Within readers all
    → Within (listen_all socks backlog readers t).0 all
unfolding listen_all
listen_all-Within [] all backlog readers t h k = k
listen_all-Within (sock ∷ socks) all backlog readers t h k =
    listen_all-Within socks all backlog (add sock readers)
      (add_reader sock ∷ listen sock backlog ∷ t) (λ f i. h f (ground (arith, i)))
      (λ f i. elim (Bool-cases (f == sock)) [
        | inl e ↦ h f (ground (arith, e))
        | inr e ↦ k f (sym (contains-add_ne f sock readers (ground (arith, e))) ∙ i)
      ])

-- What is left after closing is neither among the closed sockets nor new.
close_sockets-Within :
    (socks readers : List ℕ) (t : List Event) (f : ℕ)
    → contains f (close_sockets socks readers t).0 ≡ true
    → (contains f readers ≡ true) × (contains f socks ≡ false)
unfolding close_sockets
close_sockets-Within [] readers t f h = (h, refl)
close_sockets-Within (sock ∷ socks) readers t f h =
    let r =
      close_sockets-Within socks (discard sock readers) (close_socket sock ∷ remove_reader sock ∷ t)
        f h in
    elim (Bool-cases (f == sock)) [
      | inl e ↦ gone e r.0
      | inr e ↦ (
        sym (contains-discard_ne f sock readers (ground (arith, e))) ∙ r.0,
        ground (arith, e, r.1),
      )
    ]
  where
    same : (f == sock) ≡ true → f ≡ sock
    same e = ground (arith, e)

    gone :
        (f == sock) ≡ true
        → contains f (discard sock readers) ≡ true
        → (contains f readers ≡ true) × (contains f (sock ∷ socks) ≡ false)
    gone e i = ground (
      arith,
      i,
      subst (λ n. contains n (discard sock readers) ≡ false) (sym (same e))
          (contains-discard_self sock readers),
    )

-- A step that leaves the sockets, the readers and so the invariant.
abbrev Idle : Server → Server → Type 0
Idle s t = (t.sockets ≡ s.sockets) × (t.readers ≡ s.readers)

Idle-IsWatched : (s t : Server) → Idle s t → IsWatched s → IsWatched t
Idle-IsWatched s t (a, b) p f h =
    subst (λ o. contains f (listed o) ≡ true) (sym a) (p f (subst (λ l. contains f l ≡ true) b h))

accept_loop-Idle : (n : ℕ) (answers : List Accept) (s : Server) → Idle s (accept_loop n answers s).0
unfolding accept_loop
accept_loop-Idle zero answers s = (refl, refl)
accept_loop-Idle (suc n) [] s = (refl, refl)
accept_loop-Idle (suc n) (connection conn ∷ answers) s =
    accept_loop-Idle n answers (emit (create_task conn) s)
accept_loop-Idle (suc n) (connection_aborted ∷ answers) s = accept_loop-Idle n answers s
accept_loop-Idle (suc n) (blocking_io ∷ answers) s = (refl, refl)
accept_loop-Idle (suc n) (accept_error errno ∷ answers) s = ground arith

wakeup-Idle : (s : Server) → Idle s (wakeup s)
unfolding wakeup
wakeup-Idle s = ground arith

cancel-Idle : (s : Server) → Idle s (cancel_serving_forever s)
unfolding cancel_serving_forever
cancel-Idle s = ground arith

detach-Idle : (t : ℕ) (s : Server) → Idle s (detach t s)
unfolding detach
detach-Idle t s =
    let s1 : Server = record s { clients = discard t s.clients } in
    if-cases (Idle s) (is_empty s1.clients && is_none s1.sockets) (wakeup s1) s1
      (λ _. wakeup-Idle s1) (λ _. (refl, refl))

wait_closed-Idle : (s : Server) → Idle s (wait_closed s).0
unfolding wait_closed
wait_closed-Idle s = ground arith

accept_end-Idle :
    (debug : Bool) (conn : ℕ) (c : Creation) (s : Server) → Idle s (accept_end debug conn c s)
unfolding accept_end attach
accept_end-Idle debug conn (created t) s = ground arith
accept_end-Idle debug conn failed s = ground arith
accept_end-Idle debug conn exited s = ground arith

-- `close` leaves nothing watched.
close_open-unwatched :
    (socks : List ℕ) (s : Server)
    → s.sockets ≡ some socks
    → IsWatched s
    → (f : ℕ) → contains f (close_open socks s).readers ≡ true
    → contains f [] ≡ true
unfolding close_open
close_open-unwatched socks s e p f h =
    let r = close_sockets socks s.readers s.trace in
    let s1 : Server = record s { sockets = none; readers = r.0; trace = r.1; serving = false } in
    let s2 = cancel_serving_forever s1 in
    let kept : (if is_empty s2.clients then wakeup s2 else s2).readers ≡ r.0 =
      if-cases (λ t. t.readers ≡ r.0) (is_empty s2.clients) (wakeup s2) s2
        (λ _. (wakeup-Idle s2).1 ∙ (cancel-Idle s1).1) (λ _. (cancel-Idle s1).1) in
    let w =
      close_sockets-Within socks s.readers s.trace f (subst (λ l. contains f l ≡ true) kept h) in
    let i : contains f socks ≡ true = subst (λ o. contains f (listed o) ≡ true) e (p f w.0) in
    ground (arith, w.1, i)

close-IsWatched : (s : Server) → IsWatched s → IsWatched (close s)
unfolding close
close-IsWatched s p = closed s.sockets refl
  where
    from_nil : (l : List ℕ) (f : ℕ) → contains f [] ≡ true → contains f l ≡ true
    from_nil l f h = ground arith

    closed :
        (o : Option (List ℕ))
        → s.sockets ≡ o
        → IsWatched (elim o [ none ↦ s | some socks ↦ close_open socks s ])
    closed none e = p
    closed (some socks) e = λ f h.
        from_nil (listed (close_open socks s).sockets) f (close_open-unwatched socks s e p f h)

start-IsWatched : (s : Server) → IsWatched s → IsWatched (start_serving s).0
unfolding start_serving
start-IsWatched s p =
    if-cases {A = Server × Reply} (λ r. IsWatched r.0) s.serving (s, returned) (begun s.sockets)
      (λ _. p) (λ _. started s.sockets refl)
  where
    begun : Option (List ℕ) → Server × Reply
    begun o = elim o [
      | none ↦ (record s { serving = true }, raised type_error)
      | some socks ↦
          let (readers, t) = listen_all socks s.backlog s.readers s.trace in
          (record s { serving = true; readers = readers; trace = t }, returned)
    ]

    started : (o : Option (List ℕ)) → s.sockets ≡ o → IsWatched (begun o).0
    started none e = p
    started (some socks) e = λ f h.
        subst (λ o. contains f (listed o) ≡ true) (sym e)
          (listen_all-Within socks socks s.backlog s.readers s.trace (λ g i. i)
            (λ g i. subst (λ o. contains g (listed o) ≡ true) e (p g i)) f h)

serve_forever-IsWatched : (s : Server) → IsWatched s → IsWatched (serve_forever s).0
unfolding serve_forever
serve_forever-IsWatched s p =
    let s1 = (start_serving s).0 in
    let begun : Server × Reply = (
      emit (create_future s1.next_future) (record s1 {
        serving_forever_fut = some s1.next_future;
        next_future = suc s1.next_future;
      }),
      returned,
    ) in
    if-cases {A = Server × Reply} (λ r. IsWatched r.0) (is_some s.serving_forever_fut)
      (s, raised runtime_error) (if is_none s.sockets then (s, raised runtime_error) else begun)
      (λ _. p)
      (λ _.
        if-cases {A = Server × Reply} (λ r. IsWatched r.0) (is_none s.sockets)
          (s, raised runtime_error) begun (λ _. p) (λ _. start-IsWatched s p))

step-IsWatched : (op : Op) (s : Server) → IsWatched s → IsWatched (step op s)
unfolding step accept_connection accept_begin serve_forever_cancelled leave_serve_forever
    close_clients abort_clients
step-IsWatched (accept_call answers) s p =
    Idle-IsWatched s (accept_connection answers s).0 (accept_loop-Idle (suc s.backlog) answers s) p
step-IsWatched (begin_call conn) s p =
    if-cases IsWatched (is_none s.sockets) (emit (close_connection conn) s) s (λ _. p) (λ _. p)
step-IsWatched (end_call debug conn c) s p =
    Idle-IsWatched s (accept_end debug conn c s) (accept_end-Idle debug conn c s) p
step-IsWatched (transport_finalized t) s p = Idle-IsWatched s (detach t s) (detach-Idle t s) p
step-IsWatched close_call s p = close-IsWatched s p
step-IsWatched close_clients_call s p = p
step-IsWatched abort_clients_call s p = p
step-IsWatched start_serving_call s p = start-IsWatched s p
step-IsWatched serve_forever_call s p = serve_forever-IsWatched s p
step-IsWatched serve_forever_cancelled_call s p =
    Idle-IsWatched (close s) (wait_closed (close s)).0 (wait_closed-Idle (close s))
      (close-IsWatched s p)
step-IsWatched leave_serve_forever_call s p = p
step-IsWatched wait_closed_call s p = Idle-IsWatched s (wait_closed s).0 (wait_closed-Idle s) p
step-IsWatched (future_done f) s p = p

on_run : (ops : List Op) (s : Server) → IsWatched s → IsWatched (run ops s)
unfolding run
on_run [] s p = p
on_run (op ∷ ops) s p = on_run ops (step op s) (step-IsWatched op s p)

-- After any history of a server's calls the event loop watches, of its sockets, only those that
-- the server holds; once the server is closed it watches none.
pub run-IsWatched :
    (ops : List Op) (socks : List ℕ) (backlog : ℕ) → IsWatched (run ops (init socks backlog))
run-IsWatched ops socks backlog =
    on_run ops (init socks backlog) (unfold init in λ f h. ground (arith, h))
