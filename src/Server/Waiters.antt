-- ===== src/Server/Waiters.antt =====
-- Who waits for the end of a server (`wait_closed` and `_wakeup` of aiofastnet/api_utils.py).
pub mod Frames
pub mod Closing
pub mod Steps
use aiofastnet.Base.{
  ℕ, zero, suc, ◌+◌, ◌≡◌, refl, sym, ap, subst, ◌∙◌, Bool, true, false, ◌||◌, ◌&&◌, Option, none,
  some, List, [], ◌∷◌, ◌++◌, if◌then◌else◌, if-cases, is_some, is_none, contains, add, discard,
  discard_nil, is_empty, contains-append_left, contains-append_right, inl, inr, ◌⊎◌, Option-cases,
  Bool-cases, arith, ◌==◌, ◌≢◌,
}
use aiofastnet.Server.{
  Server, Event, create_waiter, set_result, create_task, close_transport, abort_transport,
  close_socket, remove_reader, add_reader, listen, emit, init, wake_all, wakeup, attach, detach,
  close, close_sockets, close_open, Reply, returned, raised, type_error, runtime_error,
  attribute_error, assertion_error, os_error, out_of_resource, creation_error, close_connection,
  create_future, cancel_serving_forever, close_clients, abort_clients, call_clients, start_serving,
  listen_all, serve_forever, serve_forever_cancelled, leave_serve_forever, wait_closed,
}
use aiofastnet.Server.Accepting.{
  Accept, connection, connection_aborted, blocking_io, accept_error, accept_loop, accept_connection,
  accept_begin, accept_end, Creation, created, failed, exited, Op, accept_call, begin_call,
  end_call, transport_finalized, close_call, close_clients_call, abort_clients_call,
  start_serving_call, serve_forever_call, serve_forever_cancelled_call, leave_serve_forever_call,
  wait_closed_call, future_done, step, run, resource_errnos,
}

-- The futures that calls of `wait_closed` await.
abbrev pub issued : List Event → List ℕ
issued [] = []
issued (create_waiter f ∷ t) = f ∷ issued t
issued (_ ∷ t) = issued t

-- The futures that `_wakeup` settled.
abbrev pub woken : List Event → List ℕ
woken [] = []
woken (set_result f ∷ t) = f ∷ woken t
woken (_ ∷ t) = woken t

abbrev pub Within : List ℕ → List ℕ → Type 0
Within xs ys = (f : ℕ) → contains f xs ≡ true → contains f ys ≡ true

-- While there are waiters, the server is open or has clients, every future that was handed out is
-- among them, and none was settled. Afterwards it is closed without clients, and all are done.
abbrev pub IsSettled : Option (List ℕ) → Server → Type 0
IsSettled none s = (s.sockets ≡ none) × (s.clients ≡ []) × Within (issued s.trace) s.done
IsSettled (some ws) s =
    (s.sockets ≡ none → s.clients ≢ []) × Within (issued s.trace) ws × (woken s.trace ≡ [])

abbrev pub IsWaited : Server → Type 0
IsWaited s = IsSettled s.waiters s

-- A step that the waiters do not notice.
abbrev pub Frame : Server → Server → Type 0
Frame s t =
    (t.sockets ≡ s.sockets)
    × (t.clients ≡ s.clients)
    × (t.waiters ≡ s.waiters)
    × (issued t.trace ≡ issued s.trace)
    × (woken t.trace ≡ woken s.trace)
    × Within s.done t.done

pub Frame-IsWaited : (s t : Server) → Frame s t → IsWaited s → IsWaited t
Frame-IsWaited s t (a, b, c, d, e, m) p = subst (λ w. IsSettled w t) (sym c) (settled s.waiters p)
  where
    settled : (w : Option (List ℕ)) → IsSettled w s → IsSettled w t
    settled none (x, y, z) = (a ∙ x, b ∙ y, λ f h. m f (z f (subst (λ l. contains f l ≡ true) d h)))
    settled (some ws) (x, y, z) =
        (λ h k. x (sym a ∙ h) (sym b ∙ k), λ f h. y f (subst (λ l. contains f l ≡ true) d h), e ∙ z)

pub wake_all-issued : (ws done : List ℕ) (t : List Event) → issued (wake_all ws done t).1 ≡ issued t
unfolding wake_all
wake_all-issued [] done t = refl
wake_all-issued (w ∷ ws) done t =
    if-cases (λ r. issued r.1 ≡ issued t) (contains w done) (wake_all ws done t)
      (wake_all ws (w ∷ done) (set_result w ∷ t)) (λ _. wake_all-issued ws done t)
      (λ _. wake_all-issued ws (w ∷ done) (set_result w ∷ t))

pub wake_all-grows : (ws done : List ℕ) (t : List Event) → Within done (wake_all ws done t).0
unfolding wake_all
wake_all-grows [] done t f h = h
wake_all-grows (w ∷ ws) done t f h =
    if-cases (λ r. contains f r.0 ≡ true) (contains w done) (wake_all ws done t)
      (wake_all ws (w ∷ done) (set_result w ∷ t)) (λ _. wake_all-grows ws done t f h)
      (λ _. wake_all-grows ws (w ∷ done) (set_result w ∷ t) f (ground arith))

-- Everyone in the list is done afterwards.
pub wake_all-Within : (ws done : List ℕ) (t : List Event) → Within ws (wake_all ws done t).0
unfolding wake_all
wake_all-Within [] done t f h = ground arith
wake_all-Within (w ∷ ws) done t f h =
    if-cases (λ r. contains f r.0 ≡ true) (contains w done) (wake_all ws done t)
      (wake_all ws (w ∷ done) (set_result w ∷ t))
      (λ e. elim (Bool-cases (f == w)) [
        | inl q ↦ wake_all-grows ws done t f (ground (arith, e, q))
        | inr q ↦ wake_all-Within ws done t f (ground (arith, h, q))
      ])
      (λ _. elim (Bool-cases (f == w)) [
        | inl q ↦ wake_all-grows ws (w ∷ done) (set_result w ∷ t) f (ground (arith, q))
        | inr q ↦ wake_all-Within ws (w ∷ done) (set_result w ∷ t) f (ground (arith, h, q))
      ])

-- What is left of the invariant when the server may have come to its end.
abbrev pub Ready : Option (List ℕ) → List ℕ → List ℕ → Type 0
Ready none fs done = Within fs done
Ready (some ws) fs done = Within fs ws

pub wakeup-IsWaited :
    (s : Server)
    → s.sockets ≡ none
    → s.clients ≡ []
    → Ready s.waiters (issued s.trace) s.done
    → IsWaited (wakeup s)
unfolding wakeup
wakeup-IsWaited s h k p = ended s.waiters refl p
  where
    ended :
        (w : Option (List ℕ))
        → s.waiters ≡ w
        → Ready w (issued s.trace) s.done
        → IsWaited (elim w [
          | none ↦ s
          | some ws ↦
              let (done, t) = wake_all ws s.done s.trace in
              record s { waiters = none; done = done; trace = t }
        ])
    ended none e q = subst (λ w. IsSettled w s) (sym e) (h, k, q)
    ended (some ws) e q = (
      h,
      k,
      λ f i.
          wake_all-Within ws s.done s.trace f
            (q f (subst (λ l. contains f l ≡ true) (wake_all-issued ws s.done s.trace) i)),
    )
