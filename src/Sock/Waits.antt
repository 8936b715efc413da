-- ===== src/Sock/Waits.antt =====
-- What a socket coroutine that waits comes to (aiofastnet/api_sock.py).
use aiofastnet.Base.{ℕ, zero, suc, ◌<◌, ◌≡◌, refl, Bool, true, List, [], ◌∷◌, ◌++◌, arith}
use aiofastnet.Sock.{
  Outcome, done, retry, failed, Future, pending, result, exception, cancelled, is_done, Waiting,
  ready, poll,
}

module _ {ℓ} {R : Type ℓ} where
  abbrev pub retries : ℕ → List (Outcome R)
  retries zero = []
  retries (suc n) = retry ∷ retries n

  poll-settled : (n : ℕ) (w : Waiting R) → is_done w.future ≡ true → poll n w ≡ w
  unfolding poll ready
  poll-settled zero w h = refl
  poll-settled (suc n) w h = rw h (poll-settled n w h)

  -- However often the callback runs on a future that was cancelled, it asks the socket for nothing.
  pub poll-cancelled :
      (n : ℕ) (registered : Bool) (answers : List (Outcome R))
      → let w : Waiting R = record {
        future = cancelled;
        registered = registered;
        answers = answers;
      } in
        poll n w ≡ w
  poll-cancelled n registered answers =
      poll-settled n (record { future = cancelled; registered = registered; answers = answers })
        refl

  -- A future settled by the first answer that is not a retry.
  abbrev settle : Outcome R → Future R
  settle (done r) = result r
  settle retry = pending
  settle (failed e) = exception e

  -- If the socket answers so often that it would block and then otherwise, and the callback runs
  -- more often than that, then the coroutine ends with that answer, and the socket was asked for
  -- nothing after it, so that no data is lost.
  pub poll-answer :
      (n m : ℕ) (registered : Bool) (o : Outcome R) (rest : List (Outcome R))
      → is_done (settle o) ≡ true
      → m < n
      → poll n
          (record { future = pending; registered = registered; answers = retries m ++ (o ∷ rest) })
        ≡ record { future = settle o; registered = registered; answers = rest }
  unfolding poll ready
  poll-answer zero m registered o rest d h = ground arith
  poll-answer (suc n) zero registered (done r) rest d h =
      poll-settled n (record { future = result r; registered = registered; answers = rest }) refl
  poll-answer (suc n) zero registered retry rest d h = ground arith
  poll-answer (suc n) zero registered (failed e) rest d h =
      poll-settled n (record { future = exception e; registered = registered; answers = rest }) refl
  poll-answer (suc n) (suc m) registered o rest d h =
      poll-answer n m registered o rest d (omega arith)
