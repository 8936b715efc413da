-- ===== src/Server/Waiters/Frames.antt =====
-- The calls that the waiters of a server do not notice (aiofastnet/api_utils.py).
use aiofastnet.Base.{
  ℕ, zero, suc, ◌≡◌, refl, ◌∙◌, true, Option, none, some, List, [], ◌∷◌, if-cases, contains, add,
  discard, arith,
}
use aiofastnet.Server.{
  Server, Event, create_task, close_socket, remove_reader, add_reader, listen, emit, close_sockets,
  Reply, returned, raised, type_error, attribute_error, os_error, out_of_resource,
  cancel_serving_forever, call_clients, start_serving, listen_all,
}
use aiofastnet.Server.Accepting.{
  Accept, connection, connection_aborted, blocking_io, accept_error, accept_loop, resource_errnos,
}
use aiofastnet.Server.Waiters.{issued, woken, Frame}

pub close_sockets-quiet :
    (socks readers : List ℕ) (t : List Event)
    → (issued (close_sockets socks readers t).1 ≡ issued t)
      × (woken (close_sockets socks readers t).1 ≡ woken t)
unfolding close_sockets
close_sockets-quiet [] readers t = (refl, refl)
close_sockets-quiet (sock ∷ socks) readers t =
    close_sockets-quiet socks (discard sock readers) (close_socket sock ∷ remove_reader sock ∷ t)

pub listen_all-quiet :
    (socks : List ℕ) (backlog : ℕ) (readers : List ℕ) (t : List Event)
    → (issued (listen_all socks backlog readers t).1 ≡ issued t)
      × (woken (listen_all socks backlog readers t).1 ≡ woken t)
unfolding listen_all
listen_all-quiet [] backlog readers t = (refl, refl)
listen_all-quiet (sock ∷ socks) backlog readers t =
    listen_all-quiet socks backlog (add sock readers) (add_reader sock ∷ listen sock backlog ∷ t)

pub call_clients-quiet :
    (call : ℕ → Event) (cs : List ℕ) (t : List Event)
    → ((c : ℕ) (u : List Event) → issued (call c ∷ u) ≡ issued u)
    → ((c : ℕ) (u : List Event) → woken (call c ∷ u) ≡ woken u)
    → (issued (call_clients call cs t) ≡ issued t) × (woken (call_clients call cs t) ≡ woken t)
unfolding call_clients
call_clients-quiet call [] t h k = (refl, refl)
call_clients-quiet call (c ∷ cs) t h k =
    let r = call_clients-quiet call cs (call c ∷ t) h k in (r.0 ∙ h c t, r.1 ∙ k c t)

pub cancel-Frame : (s : Server) → Frame s (cancel_serving_forever s)
unfolding cancel_serving_forever
cancel-Frame s = ground arith

pub start-Frame : (s : Server) → Frame s (start_serving s).0
unfolding start_serving
start-Frame s =
    if-cases (λ r. Frame s r.0) s.serving (s, returned) (begun s.sockets)
      (λ _. (refl, refl, refl, refl, refl, λ f h. h)) (λ _. started s.sockets)
  where
    begun : Option (List ℕ) → Server × Reply
    begun o = elim o [
      | none ↦ (record s { serving = true }, raised type_error)
      | some socks ↦
          let (readers, t) = listen_all socks s.backlog s.readers s.trace in
          (record s { serving = true; readers = readers; trace = t }, returned)
    ]

    started : (o : Option (List ℕ)) → Frame s (begun o).0
    started none = (refl, refl, refl, refl, refl, λ f h. h)
    started (some socks) =
        let q = listen_all-quiet socks s.backlog s.readers s.trace in
        (refl, refl, refl, q.0, q.1, λ f h. h)

pub accept_loop-Frame :
    (n : ℕ) (answers : List Accept) (s : Server) → Frame s (accept_loop n answers s).0
unfolding accept_loop
accept_loop-Frame zero answers s = (refl, refl, refl, refl, refl, λ f h. h)
accept_loop-Frame (suc n) [] s = (refl, refl, refl, refl, refl, λ f h. h)
accept_loop-Frame (suc n) (connection conn ∷ answers) s =
    accept_loop-Frame n answers (emit (create_task conn) s)
accept_loop-Frame (suc n) (connection_aborted ∷ answers) s = accept_loop-Frame n answers s
accept_loop-Frame (suc n) (blocking_io ∷ answers) s = (refl, refl, refl, refl, refl, λ f h. h)
accept_loop-Frame (suc n) (accept_error errno ∷ answers) s =
    if-cases {A = Server × Reply} (λ r. Frame s r.0) (contains errno resource_errnos)
      (emit out_of_resource s, raised attribute_error) (s, raised (os_error errno))
      (λ _. (refl, refl, refl, refl, refl, λ f h. h))
      (λ _. (refl, refl, refl, refl, refl, λ f h. h))
