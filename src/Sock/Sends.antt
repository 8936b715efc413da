-- ===== src/Sock/Sends.antt =====
-- What `sock_sendall` sends (aiofastnet/api_sock.py).
use aiofastnet.Base.{
  ℕ, ◌+◌, ◌≤◌, ◌≡◌, refl, sym, ap, subst, ◌∙◌, min, Bool, Option, none, some, List, [], ◌∷◌, ◌++◌,
  take, drop, length, if◌then◌else◌, if-cases, ◌==◌, arith, take_all, take-take-drop, length-drop,
}
use aiofastnet.Buffer.{Buffer, unpack, items}
use aiofastnet.Sock.{
  Outcome, done, retry, failed, Future, pending, result, exception, cancelled, is_done, PySock,
  Error, check_socket, runtime_error,
}
use aiofastnet.Sock.Sendall.{
  Sending, Reply, delegated, raised, returned, awaits, send, sent_first, sock_sendall, count_sent,
  sendall_ready, sendall_run,
}

-- What was sent is a front of the data, all of it if the future has its result.
abbrev pub Sent : Future (Unit {0}) → Sending → Type 0
Sent (result _) s = s.wire ≡ s.view
Sent _ s = (s.sent ≤ length s.view) × (s.wire ≡ take s.sent s.view)

abbrev pub IsSending : List ℕ → Sending → Type 0
IsSending d s = (s.view ≡ d) × Sent s.future s

count_sent-IsSending :
    (n : ℕ) (d : List ℕ) (s : Sending)
    → s.future ≡ pending
    → IsSending d s
    → IsSending d (count_sent (min n (length (drop s.sent s.view))) s)
unfolding count_sent
count_sent-IsSending n d s e (v, p) =
    let k = min n (length (drop s.sent s.view)) in
    let q = subst (λ f. Sent f s) e p in
    let w : s.wire ++ take k (drop s.sent s.view) ≡ take (s.sent + k) s.view =
      ap (λ t. t ++ take k (drop s.sent s.view)) q.1 ∙ take-take-drop s.sent k s.view in
    let t : Sending = count_sent k s in
    (
      v,
      if-cases (λ f. Sent f t) (s.sent + k == length s.view) (result tt) s.future
          (λ h. w ∙ take_all (s.sent + k) s.view (ground (arith, h)))
          (λ _. subst (λ f. Sent f t) (sym e) (bound q.0, w)),
    )
  where
    bound : s.sent ≤ length s.view → s.sent + min n (length (drop s.sent s.view)) ≤ length s.view
    bound h = let l = length-drop s.sent s.view in omega (arith, l, h)

ready-IsSending :
    (o : Outcome ℕ) (d : List ℕ) (s : Sending) → IsSending d s → IsSending d (sendall_ready o s)
unfolding sendall_ready
ready-IsSending o d s p = waited s.future refl
  where
    waited :
        (f : Future (Unit {0}))
        → s.future ≡ f
        → IsSending d (
            if is_done f then s else elim (send o (drop s.sent s.view)) [
              | done n ↦ count_sent n s
              | retry ↦ s
              | failed e ↦ record s { future = exception e }
            ])
    waited (result r) e = p
    waited (exception x) e = p
    waited cancelled e = p
    waited pending e = answered o
      where
        answered :
            (a : Outcome ℕ)
            → IsSending d (elim (send a (drop s.sent s.view)) [
              | done n ↦ count_sent n s
              | retry ↦ s
              | failed x ↦ record s { future = exception x }
            ])
        answered (done n) = count_sent-IsSending n d s e p
        answered retry = p
        answered (failed x) = (p.0, subst (λ f. Sent f s) e p.1)

run-IsSending :
    (os : List (Outcome ℕ)) (d : List ℕ) (s : Sending)
    → IsSending d s
    → IsSending d (sendall_run os s)
unfolding sendall_run
run-IsSending [] d s p = p
run-IsSending (o ∷ os) d s p = run-IsSending os d (sendall_ready o s) (ready-IsSending o d s p)

-- What a caller of `sock_sendall` may rely on when the socket goes on to answer with a list.
abbrev pub Promised : List ℕ → List (Outcome ℕ) → Reply → Type 0
Promised d os delegated = Unit {0}
Promised d os (raised e) = Unit {0}
Promised d os (returned wire) = wire ≡ d
Promised d os (awaits s) = IsSending d (sendall_run os s)

first-Promised :
    (s : PySock) (b : Buffer) (n : ℕ) (os : List (Outcome ℕ))
    → items b ≡ length (unpack b)
    → n ≤ length (unpack b)
    → Promised (unpack b) os (sent_first s b n)
first-Promised s b n os h k =
    let d = unpack b in
    let s0 : Sending = record { view = d; sent = n; wire = take n d; future = pending } in
    if-cases (Promised d os) (n == items b) (returned (take n d))
      (if s.owned then raised runtime_error else awaits s0)
      (λ e. take_all n d (ground (arith, e, h)))
      (λ _.
        if-cases (Promised d os) s.owned (raised runtime_error) (awaits s0) (λ _. tt)
          (λ _. run-IsSending os d s0 (refl, (k, refl))))

-- With data whose items are bytes, `sock_sendall` returns at once only if the socket took all of
-- it. If it awaits its future, then after any answers of the socket the bytes that it took are a
-- front of the data, and all of the data if the future has its result.
pub sock_sendall-Promised :
    (fallback : Bool) (s : PySock) (b : Buffer) (o : Outcome ℕ) (os : List (Outcome ℕ))
    → items b ≡ length (unpack b)
    → Promised (unpack b) os (sock_sendall fallback s b o)
unfolding sock_sendall
sock_sendall-Promised fallback s b o os h =
    if-cases (Promised (unpack b) os) fallback delegated (checked (check_socket s)) (λ _. tt)
      (λ _. promised (check_socket s))
  where
    checked : Option Error → Reply
    checked c = elim c [
      | some e ↦ raised e
      | none ↦ elim (send o (unpack b)) [
        | done n ↦ sent_first s b n
        | retry ↦ sent_first s b 0
        | failed e ↦ raised e
      ]
    ]

    answered :
        (a : Outcome ℕ)
        → Promised (unpack b) os (elim (send a (unpack b)) [
          | done n ↦ sent_first s b n
          | retry ↦ sent_first s b 0
          | failed e ↦ raised e
        ])
    answered (done n) = first-Promised s b (min n (length (unpack b))) os h (omega arith)
    answered retry = first-Promised s b 0 os h (omega arith)
    answered (failed e) = tt

    promised : (c : Option Error) → Promised (unpack b) os (checked c)
    promised none = answered o
    promised (some e) = tt
