-- ===== src/Sock/Finish.antt =====
-- `sock_sendall` comes to an end (aiofastnet/api_sock.py).
use aiofastnet.Base.{
  ℕ, suc, ◌+◌, ◌-◌, ◌≤◌, ◌<◌, ◌≡◌, ap, ◌∙◌, min, false, List, [], ◌∷◌, drop, length, if◌then◌else◌,
  ◌==◌, arith, All, length-drop, Bool-cases, inl, inr, ◌≢◌,
}
use aiofastnet.Sock.{Outcome, done, retry, failed, Future, pending, result, exception, is_done}
use aiofastnet.Sock.Sendall.{Sending, send, count_sent, sendall_ready, sendall_run}

-- The socket takes at least a byte.
abbrev pub Takes : Outcome ℕ → Type 0
Takes (done n) = 0 < n
Takes retry = ⊥
Takes (failed e) = ⊥

abbrev counted : Outcome ℕ → Sending → Sending
counted o s = elim (send o (drop s.sent s.view)) [
  | done n ↦ count_sent n s
  | retry ↦ s
  | failed e ↦ record s { future = exception e }
]

ready_by :
    (o : Outcome ℕ) (s : Sending) (f : Future (Unit {0}))
    → s.future ≡ f
    → sendall_ready o s ≡ (if is_done f then s else counted o s)
unfolding sendall_ready
ready_by o s f e = ap (λ g. if is_done g then s else counted o s) e

run-settled :
    (os : List (Outcome ℕ)) (s : Sending)
    → s.future ≡ result tt
    → (sendall_run os s).future ≡ result tt
unfolding sendall_run
run-settled [] s h = h
run-settled (o ∷ os) s h =
    ap (λ t. (sendall_run os t).future) (ready_by o s (result tt) h) ∙ run-settled os s h

-- Once data is left, so many calls of `ready` as there are bytes left settle the future, if the
-- socket takes at least a byte at each.
pub sendall_run-finishes :
    (os : List (Outcome ℕ)) (s : Sending)
    → All Takes os
    → s.future ≡ pending
    → s.sent < length s.view
    → length s.view - s.sent ≤ length os
    → (sendall_run os s).future ≡ result tt
unfolding sendall_run count_sent
sendall_run-finishes [] s a p l h = ground arith
sendall_run-finishes (retry ∷ os) s a p l h = elim a.0 [ ]
sendall_run-finishes (failed e ∷ os) s a p l h = elim a.0 [ ]
sendall_run-finishes (done n ∷ os) s a p l h =
    let k = min n (length (drop s.sent s.view)) in
    let t = count_sent k s in
    let len = length-drop s.sent s.view in
    let e : sendall_ready (done n) s ≡ t = ready_by (done n) s pending p in
    ap (λ u. (sendall_run os u).future) e ∙ elim (Bool-cases (s.sent + k == length s.view)) [
      | inl q ↦ run-settled os t (ap (λ b. if b then result tt else s.future) q)
      | inr q ↦
          sendall_run-finishes os t a.1 (ap (λ b. if b then result tt else s.future) q ∙ p)
            (more len q) (fewer len)
    ]
  where
    more :
        length (drop s.sent s.view) ≡ length s.view - s.sent
        → (s.sent + min n (length (drop s.sent s.view)) == length s.view) ≡ false
        → s.sent + min n (length (drop s.sent s.view)) < length s.view
    more len q =
        let ne : s.sent + min n (length (drop s.sent s.view)) ≢ length s.view = ground (arith, q) in
        omega (arith, len, ne, l)

    fewer :
        length (drop s.sent s.view) ≡ length s.view - s.sent
        → length s.view - (s.sent + min n (length (drop s.sent s.view))) ≤ length os
    fewer len =
        let b : 0 < n = a.0 in
        let c : length s.view - s.sent ≤ suc (length os) = h in omega (arith, len, b, c, l)
