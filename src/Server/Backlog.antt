-- ===== src/Server/Backlog.antt =====
-- How many connections one call of `_accept_connection` takes (aiofastnet/api_utils.py).
use aiofastnet.Base.{ℕ, zero, suc, ◌≤◌, ◌≡◌, refl, List, [], ◌∷◌, contains, length, arith, if-cases}
use aiofastnet.Server.{
  Server, create_task, emit, Reply, raised, attribute_error, os_error, out_of_resource,
}
use aiofastnet.Server.Accepting.{
  Accept, connection, connection_aborted, blocking_io, accept_error, accept_loop, accept_connection,
  tasks, arriving, resource_errnos,
}

-- A list put in front of another one, last element first.
abbrev pub onto : List ℕ → List ℕ → List ℕ
onto [] ys = ys
onto (x ∷ xs) ys = onto xs (x ∷ ys)

accept_loop-tasks :
    (n : ℕ) (answers : List Accept) (s : Server)
    → tasks (accept_loop n answers s).0.trace ≡ onto (arriving n answers) (tasks s.trace)
unfolding accept_loop
accept_loop-tasks zero answers s = refl
accept_loop-tasks (suc n) [] s = refl
accept_loop-tasks (suc n) (connection conn ∷ answers) s =
    accept_loop-tasks n answers (emit (create_task conn) s)
accept_loop-tasks (suc n) (connection_aborted ∷ answers) s = accept_loop-tasks n answers s
accept_loop-tasks (suc n) (blocking_io ∷ answers) s = refl
accept_loop-tasks (suc n) (accept_error errno ∷ answers) s =
    if-cases {A = Server × Reply} (λ r. tasks r.0.trace ≡ tasks s.trace)
      (contains errno resource_errnos) (emit out_of_resource s, raised attribute_error)
      (s, raised (os_error errno)) (λ _. refl) (λ _. refl)

length-arriving : (n : ℕ) (answers : List Accept) → length (arriving n answers) ≤ n
length-arriving zero answers = omega arith
length-arriving (suc n) [] = omega arith
length-arriving (suc n) (connection conn ∷ answers) = omega (arith, length-arriving n answers)
length-arriving (suc n) (connection_aborted ∷ answers) = omega (arith, length-arriving n answers)
length-arriving (suc n) (blocking_io ∷ answers) = omega arith
length-arriving (suc n) (accept_error errno ∷ answers) = omega arith

-- One call of `_accept_connection` makes a task for each connection that arrives before `accept`
-- blocks or fails, in that order, and for no more than one above the backlog.
pub accept_connection-tasks :
    (answers : List Accept) (s : Server)
    → let taken = arriving (suc s.backlog) answers in
      (tasks (accept_connection answers s).0.trace ≡ onto taken (tasks s.trace))
      × (length taken ≤ suc s.backlog)
unfolding accept_connection
accept_connection-tasks answers s =
    (accept_loop-tasks (suc s.backlog) answers s, length-arriving (suc s.backlog) answers)
