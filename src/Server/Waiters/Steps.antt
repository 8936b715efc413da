-- ===== src/Server/Waiters/Steps.antt =====
-- The waiters of a server over a history of its calls (aiofastnet/api_utils.py).
use aiofastnet.Base.{
  ℕ, suc, refl, Bool, some, List, [], ◌∷◌, if◌then◌else◌, if-cases, is_some, is_none, arith,
}
use aiofastnet.Server.{
  Server, close_transport, abort_transport, emit, init, attach, close, Reply, returned, raised,
  runtime_error, creation_error, close_connection, create_future, close_clients, abort_clients,
  start_serving, serve_forever, serve_forever_cancelled, leave_serve_forever,
}
use aiofastnet.Server.Accepting.{
  accept_connection, accept_begin, accept_end, Creation, created, failed, exited, Op, accept_call,
  begin_call, end_call, transport_finalized, close_call, close_clients_call, abort_clients_call,
  start_serving_call, serve_forever_call, serve_forever_cancelled_call, leave_serve_forever_call,
  wait_closed_call, future_done, step, run,
}
use aiofastnet.Server.Waiters.{IsWaited, Frame-IsWaited}
use aiofastnet.Server.Waiters.Frames.{call_clients-quiet, start-Frame, accept_loop-Frame}
use aiofastnet.Server.Waiters.Closing.{
  close-IsWaited, detach-IsWaited, wait_closed-IsWaited, attach-IsWaited,
}

accept_end-IsWaited :
    (debug : Bool) (conn : ℕ) (c : Creation) (s : Server)
    → IsWaited s
    → IsWaited (accept_end debug conn c s)
unfolding accept_end
accept_end-IsWaited debug conn (created t) s p =
    if-cases IsWaited (is_none s.sockets) (emit (abort_transport t) s) (attach t s).0
      (λ _.
        Frame-IsWaited s (emit (abort_transport t) s) (refl, refl, refl, refl, refl, λ f h. h) p)
      (λ _. attach-IsWaited t s p)
accept_end-IsWaited debug conn failed s p =
    let s1 = emit (close_connection conn) s in
    if-cases IsWaited debug (emit creation_error s1) s1
      (λ _. Frame-IsWaited s (emit creation_error s1) (refl, refl, refl, refl, refl, λ f h. h) p)
      (λ _. Frame-IsWaited s s1 (refl, refl, refl, refl, refl, λ f h. h) p)
accept_end-IsWaited debug conn exited s p = p

serve_forever-IsWaited : (s : Server) → IsWaited s → IsWaited (serve_forever s).0
unfolding serve_forever
serve_forever-IsWaited s p =
    let s1 = (start_serving s).0 in
    let begun : Server × Reply = (
      emit (create_future s1.next_future) (record s1 {
        serving_forever_fut = some s1.next_future;
        next_future = suc s1.next_future;
      }),
      returned,
    ) in
    if-cases {A = Server × Reply} (λ r. IsWaited r.0) (is_some s.serving_forever_fut)
      (s, raised runtime_error) (if is_none s.sockets then (s, raised runtime_error) else begun)
      (λ _. p)
      (λ _.
        if-cases {A = Server × Reply} (λ r. IsWaited r.0) (is_none s.sockets)
          (s, raised runtime_error) begun (λ _. p)
          (λ _.
            Frame-IsWaited s1 begun.0 (refl, refl, refl, refl, refl, λ f h. h)
              (Frame-IsWaited s s1 (start-Frame s) p)))

close_clients-IsWaited : (s : Server) → IsWaited s → IsWaited (close_clients s)
unfolding close_clients
close_clients-IsWaited s p =
    let q = call_clients-quiet close_transport s.clients s.trace (λ c u. refl) (λ c u. refl) in
    Frame-IsWaited s (close_clients s) (refl, refl, refl, q.0, q.1, λ f h. h) p

abort_clients-IsWaited : (s : Server) → IsWaited s → IsWaited (abort_clients s)
unfolding abort_clients
abort_clients-IsWaited s p =
    let q = call_clients-quiet abort_transport s.clients s.trace (λ c u. refl) (λ c u. refl) in
    Frame-IsWaited s (abort_clients s) (refl, refl, refl, q.0, q.1, λ f h. h) p

pub step-IsWaited : (op : Op) (s : Server) → IsWaited s → IsWaited (step op s)
unfolding step accept_connection accept_begin serve_forever_cancelled leave_serve_forever
step-IsWaited (accept_call answers) s p =
    Frame-IsWaited s (accept_connection answers s).0 (accept_loop-Frame (suc s.backlog) answers s) p
step-IsWaited (begin_call conn) s p =
    if-cases IsWaited (is_none s.sockets) (emit (close_connection conn) s) s
      (λ _.
        Frame-IsWaited s (emit (close_connection conn) s) (refl, refl, refl, refl, refl, λ f h. h)
          p)
      (λ _. p)
step-IsWaited (end_call debug conn c) s p = accept_end-IsWaited debug conn c s p
step-IsWaited (transport_finalized t) s p = detach-IsWaited t s p
step-IsWaited close_call s p = close-IsWaited s p
step-IsWaited close_clients_call s p = close_clients-IsWaited s p
step-IsWaited abort_clients_call s p = abort_clients-IsWaited s p
step-IsWaited start_serving_call s p = Frame-IsWaited s (start_serving s).0 (start-Frame s) p
step-IsWaited serve_forever_call s p = serve_forever-IsWaited s p
step-IsWaited serve_forever_cancelled_call s p = wait_closed-IsWaited (close s) (close-IsWaited s p)
step-IsWaited leave_serve_forever_call s p =
    Frame-IsWaited s (leave_serve_forever s) (refl, refl, refl, refl, refl, λ f h. h) p
step-IsWaited wait_closed_call s p = wait_closed-IsWaited s p
step-IsWaited (future_done f) s p =
    Frame-IsWaited s (record s { done = f ∷ s.done })
      (refl, refl, refl, refl, refl, λ g h. ground (arith, h)) p

on_run : (ops : List Op) (s : Server) → IsWaited s → IsWaited (run ops s)
unfolding run
on_run [] s p = p
on_run (op ∷ ops) s p = on_run ops (step op s) (step-IsWaited op s p)

-- After any history of a server's calls: while its waiters are kept, the server is open or has
-- clients, each future that `wait_closed` handed out is among the waiters, and `_wakeup` settled
-- none; once they are dropped, the server is closed without clients and each such future is done.
pub run-IsWaited :
    (ops : List Op) (socks : List ℕ) (backlog : ℕ) → IsWaited (run ops (init socks backlog))
run-IsWaited ops socks backlog =
    on_run ops (init socks backlog) (unfold init in (λ h. ground (arith, h), λ f h. h, refl))
