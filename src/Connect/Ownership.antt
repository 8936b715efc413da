-- ===== src/Connect/Ownership.antt =====
-- Who closes the sockets of `create_connection` (aiofastnet/api_create_connection.py).
use aiofastnet.Base.{
  ℕ, suc, ◌-◌, ◌≡◌, refl, ap, ◌∙◌, Bool, true, false, Option, none, some, List, [], ◌∷◌, ◌++◌,
  if◌then◌else◌, if-cases, is_some, arith, ◌⊎◌, inl, inr,
}
use aiofastnet.Connect.Interleave.{AddrInfo}
use aiofastnet.Connect.{
  Exc, is_os_error, value_error, index_error, empty_addresses, Event, opened, closed, Attempt,
  bind_then_connect, note, Connected, connect_sock, Loop, connected, exhausted, left, try_addresses,
  single, Request, World, Result, transport, failed, check_arguments, owns_sock, finish, after_loop,
  interleaved, connect_any, connect_to_host, create_connection,
}

-- How many of the sockets that were opened are open.
abbrev pub live : List Event → ℕ
live [] = 0
live (opened ∷ t) = suc (live t)
live (closed ∷ t) = live t - 1

abbrev LeavesBy : ℕ → List Event → Option Exc → Type 0
LeavesBy n t none = live t ≡ suc n
LeavesBy n t (some e) = live t ≡ n

abbrev Leaves : ℕ → Connected → Type 0
Leaves n c = LeavesBy n c.trace c.raised

connect_sock-live :
    (a : Attempt) (info : AddrInfo) (locals : Option (List AddrInfo)) (t : List Event)
    → Leaves (live t) (connect_sock a info locals t)
unfolding connect_sock
connect_sock-live a info locals t = created a.create
  where
    ended :
        (r : List Exc × Option Exc)
        → Leaves (live t) (elim r.1 [
          | none ↦ record { errors = r.0; raised = none; trace = opened ∷ t }
          | some e ↦ record { errors = note r.0 e; raised = some e; trace = closed ∷ opened ∷ t }
        ])
    ended (errors, none) = refl
    ended (errors, some e) = omega arith

    created :
        (c : Option Exc)
        → Leaves (live t) (elim c [
          | some e ↦ record { errors = note [] e; raised = some e; trace = t }
          | none ↦
              let (errors, end) = bind_then_connect a info locals in
              elim end [
                | none ↦ record { errors = errors; raised = none; trace = opened ∷ t }
                | some e ↦ record {
                  errors = note errors e;
                  raised = some e;
                  trace = closed ∷ opened ∷ t;
                }
              ]
        ])
    created (some e) = refl
    created none = ended (bind_then_connect a info locals)

-- Only a loop that found a socket leaves one open.
abbrev pub LoopLeaves : Loop → Type 0
LoopLeaves (connected t) = live t ≡ 1
LoopLeaves (exhausted ess t) = live t ≡ 0
LoopLeaves (left e t) = live t ≡ 0

try_addresses-live :
    (os : AddrInfo → Attempt) (locals : Option (List AddrInfo)) (infos : List AddrInfo)
    (ess : List (List Exc)) (t : List Event)
    → live t ≡ 0
    → LoopLeaves (try_addresses os locals infos ess t)
unfolding try_addresses
try_addresses-live os locals [] ess t h = h
try_addresses-live os locals (info ∷ infos) ess t h =
    let c = connect_sock (os info) info locals t in
    ended c (connect_sock-live (os info) info locals t)
      (λ i. try_addresses-live os locals infos (ess ++ (c.errors ∷ [])) c.trace i)
  where
    ended :
        (c : Connected)
        → Leaves (live t) c
        → (live c.trace ≡ 0
            → LoopLeaves (try_addresses os locals infos (ess ++ (c.errors ∷ [])) c.trace))
        → LoopLeaves (elim c.raised [
          | none ↦ connected c.trace
          | some e ↦
              if is_os_error e
              then try_addresses os locals infos (ess ++ (c.errors ∷ [])) c.trace
              else left e c.trace
        ])
    ended c p k = split c.raised p
      where
        split :
            (o : Option Exc)
            → LeavesBy (live t) c.trace o
            → LoopLeaves (elim o [
              | none ↦ connected c.trace
              | some e ↦
                  if is_os_error e
                  then try_addresses os locals infos (ess ++ (c.errors ∷ [])) c.trace
                  else left e c.trace
            ])
        split none p = p ∙ ap suc h
        split (some e) p =
            if-cases LoopLeaves (is_os_error e)
              (try_addresses os locals infos (ess ++ (c.errors ∷ [])) c.trace) (left e c.trace)
              (λ _. k (p ∙ h)) (λ _. p ∙ h)

-- What the race of happy eyeballs leaves open is what the loop would.
abbrev pub IsTidy : World → Type 0
IsTidy w =
    (infos : List AddrInfo) (locals : Option (List AddrInfo)) → LoopLeaves (w.race infos locals)

-- The socket of a transport is open, and no other one.
abbrev pub IsOwned : ℕ → Result → Type 0
IsOwned n (transport t) = live t ≡ n
IsOwned n (failed e t) = live t ≡ 0

finish-IsOwned :
    (w : World) (owned : Bool) (t : List Event)
    → live t ≡ (if owned then 1 else 0)
    → IsOwned (if owned then 1 else 0) (finish w owned t)
finish-IsOwned w owned t h = made w.make_transport
  where
    closes : (b : Bool) → live t ≡ (if b then 1 else 0) → live (if b then closed ∷ t else t) ≡ 0
    closes true h = omega (arith, h)
    closes false h = h

    made :
        (m : Option Exc)
        → IsOwned (if owned then 1 else 0) (elim m [
          | none ↦ transport t
          | some e ↦ failed (single e) (if owned then closed ∷ t else t)
        ])
    made none = h
    made (some e) = closes owned h

after_loop-IsOwned :
    (w : World) (all_errors : Bool) (l : Loop)
    → LoopLeaves l
    → IsOwned 1 (after_loop w all_errors l)
after_loop-IsOwned w all_errors (connected t) h = finish-IsOwned w true t h
after_loop-IsOwned w all_errors (exhausted ess t) h = h
after_loop-IsOwned w all_errors (left e t) h = h

connect_any-IsOwned :
    (r : Request) (w : World) (infos : List AddrInfo) (locals : Option (List AddrInfo))
    → IsTidy w
    → IsOwned 1 (connect_any r w infos locals)
unfolding connect_any
connect_any-IsOwned r w infos locals tidy = ordered (interleaved r infos)
  where
    ordered :
        (o : Option (List AddrInfo))
        → IsOwned 1 (elim o [
          | none ↦ failed (single index_error) []
          | some order ↦ after_loop w r.all_errors (
              if r.happy_eyeballs
              then w.race order locals
              else try_addresses w.attempt locals order [] [])
        ])
    ordered none = refl
    ordered (some order) =
        after_loop-IsOwned w r.all_errors
          (if r.happy_eyeballs
            then w.race order locals
            else try_addresses w.attempt locals order [] [])
          (if-cases LoopLeaves r.happy_eyeballs (w.race order locals)
            (try_addresses w.attempt locals order [] []) (λ _. tidy order locals)
            (λ _. try_addresses-live w.attempt locals order [] [] refl))

connect_to_host-IsOwned : (r : Request) (w : World) → IsTidy w → IsOwned 1 (connect_to_host r w)
unfolding connect_to_host
connect_to_host-IsOwned r w tidy = resolved w.resolve
  where
    local :
        (infos : List AddrInfo) (l : Exc ⊎ List AddrInfo)
        → IsOwned 1 (elim l [
          | inl e ↦ failed (single e) []
          | inr [] ↦ failed (single empty_addresses) []
          | inr (l ∷ ls) ↦ connect_any r w infos (some (l ∷ ls))
        ])
    local infos (inl e) = refl
    local infos (inr []) = refl
    local infos (inr (l ∷ ls)) = connect_any-IsOwned r w infos (some (l ∷ ls)) tidy

    bound : (infos : List AddrInfo) → Exc ⊎ List AddrInfo → Result
    bound infos x = elim x [
      | inl e ↦ failed (single e) []
      | inr [] ↦ failed (single empty_addresses) []
      | inr (l ∷ ls) ↦ connect_any r w infos (some (l ∷ ls))
    ]

    resolved :
        (x : Exc ⊎ List AddrInfo)
        → IsOwned 1 (elim x [
          | inl e ↦ failed (single e) []
          | inr [] ↦ failed (single empty_addresses) []
          | inr (info ∷ infos) ↦
              if r.local_addr
              then bound (info ∷ infos) w.resolve_local
              else connect_any r w (info ∷ infos) none
        ])
    resolved (inl e) = refl
    resolved (inr []) = refl
    resolved (inr (info ∷ infos)) =
        if-cases (IsOwned 1) r.local_addr (bound (info ∷ infos) w.resolve_local)
          (connect_any r w (info ∷ infos) none) (λ _. local (info ∷ infos) w.resolve_local)
          (λ _. connect_any-IsOwned r w (info ∷ infos) none tidy)

-- If the race of happy eyeballs leaves nothing open but the socket that it returns, then whatever
-- the system answers, `create_connection` ends with every socket that it opened closed, but for the
-- one of the transport that it returns.
pub create_connection-IsOwned :
    (r : Request) (w : World)
    → IsTidy w
    → IsOwned (if owns_sock r then 1 else 0) (create_connection r w)
unfolding create_connection
create_connection-IsOwned r w tidy = checked (check_arguments r)
  where
    passed : (s : Option (Bool × Bool)) → Result
    passed s = elim s [
      | none ↦ failed (single value_error) []
      | some (_, stream) ↦ if stream then finish w false [] else failed (single value_error) []
    ]

    passed-IsOwned : (s : Option (Bool × Bool)) → IsOwned 0 (passed s)
    passed-IsOwned none = refl
    passed-IsOwned (some (x, stream)) =
        if-cases (IsOwned 0) stream (finish w false []) (failed (single value_error) [])
          (λ _. finish-IsOwned w false [] refl) (λ _. refl)

    hosted : Result
    hosted = if is_some r.sock then failed (single value_error) [] else connect_to_host r w

    owned : (b : Bool) → IsOwned (if b then 1 else 0) (if b then hosted else passed r.sock)
    owned true =
        if-cases (IsOwned 1) (is_some r.sock) (failed (single value_error) []) (connect_to_host r w)
          (λ _. refl) (λ _. connect_to_host-IsOwned r w tidy)
    owned false = passed-IsOwned r.sock

    checked :
        (c : Option Exc)
        → IsOwned (if owns_sock r then 1 else 0) (elim c [
          | some e ↦ failed (single e) []
          | none ↦ if owns_sock r then hosted else passed r.sock
        ])
    checked (some e) = refl
    checked none = owned (owns_sock r)
