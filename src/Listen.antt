-- ===== src/Listen.antt =====
-- The listening sockets of `create_server` (aiofastnet/api_create_server.py). The trace lists the
-- sockets that are opened, bound and closed, newest first; a socket is named by a number.
use aiofastnet.Base.{
  ℕ, ◌-◌, ◌≡◌, refl, Bool, false, Option, none, some, List, [], ◌∷◌, ◌++◌, ◌==◌, if◌then◌else◌,
  if-cases, is_empty, arith, true, ◌+◌,
}

pub data Exc : Type 0 where
  os_error : ℕ → Exc
  -- of a failed `bind`, and of no address that could be bound
  bind_error : ℕ → Exc
  no_address : Exc
  value_error : Exc

pub data Event : Type 0 where
  opened closed bound : ℕ → Event

-- `EADDRNOTAVAIL` of Linux
abbrev pub eaddrnotavail : ℕ
eaddrnotavail = 99

-- How the system answers for one address: whether `socket.socket` gives a socket, what the calls
-- of `setsockopt` raise, and the error number of `bind`.
pub record Answer : Type 0 where
  pub fd : ℕ
  pub created : Bool
  pub options : Option Exc
  pub bind : Option ℕ

pub data Loop : Type 0 where
  finished : (sockets : List ℕ) → List Event → Loop
  broken : Exc → (sockets : List ℕ) → List Event → Loop

-- The loop over the addresses. `sockets.pop()` takes off the socket that was appended last.
unfoldable pub bind_all : List Answer → List ℕ → List Event → Loop
bind_all [] sockets t = finished sockets t
bind_all (a ∷ rest) sockets t =
    let with = sockets ++ (a.fd ∷ []) in
    let skipped = bind_all rest sockets t in
    let bound_next = bind_all rest with (bound a.fd ∷ opened a.fd ∷ t) in
    let dropped = bind_all rest sockets (closed a.fd ∷ opened a.fd ∷ t) in
    if a.created
    then elim a.options [
      | some e ↦ broken e with (opened a.fd ∷ t)
      | none ↦ elim a.bind [
        | none ↦ bound_next
        | some errno ↦
            if errno == eaddrnotavail
            then dropped
            else broken (bind_error errno) with (opened a.fd ∷ t)
      ]
    ]
    else skipped

-- The `finally` clause
unfoldable pub close_all : List ℕ → List Event → List Event
close_all [] t = t
close_all (s ∷ sockets) t = close_all sockets (closed s ∷ t)

pub data Result : Type 0 where
  listening : (sockets : List ℕ) → List Event → Result
  failed : Exc → List Event → Result

abbrev pub complete : Loop → Result
complete (finished sockets t) =
    if is_empty sockets then failed no_address (close_all sockets t) else listening sockets t
complete (broken e sockets t) = failed e (close_all sockets t)

-- `create_server` with a host or a port, until the sockets are there
unfoldable pub bind_server : List Answer → Result
unfolding bind_all close_all
bind_server answers = complete (bind_all answers [] [])

-- How often a socket is in a list, and how many of its openings have not been closed.
abbrev pub one : Bool → ℕ
one true = 1
one false = 0

abbrev pub times : ℕ → List ℕ → ℕ
times n [] = 0
times n (s ∷ sockets) = one (n == s) + times n sockets

abbrev pub live : ℕ → List Event → ℕ
live n [] = 0
live n (opened s ∷ t) = one (n == s) + live n t
live n (bound _ ∷ t) = live n t
live n (closed s ∷ t) = live n t - one (n == s)

times-append : (n : ℕ) (xs ys : List ℕ) → times n (xs ++ ys) ≡ times n xs + times n ys
times-append n [] ys = omega arith
times-append n (x ∷ xs) ys = let e = times-append n xs ys in omega (arith, e)

-- The sockets of the loop are those that are open.
abbrev LoopHolds : ℕ → Loop → Type 0
LoopHolds n (finished sockets t) = live n t ≡ times n sockets
LoopHolds n (broken e sockets t) = live n t ≡ times n sockets

bind_all-LoopHolds :
    (n : ℕ) (answers : List Answer) (sockets : List ℕ) (t : List Event)
    → live n t ≡ times n sockets
    → LoopHolds n (bind_all answers sockets t)
unfolding bind_all
bind_all-LoopHolds n [] sockets t h = h
bind_all-LoopHolds n (a ∷ rest) sockets t h =
    let with = sockets ++ (a.fd ∷ []) in
    let skipped = bind_all rest sockets t in
    let bound_next = bind_all rest with (bound a.fd ∷ opened a.fd ∷ t) in
    let dropped = bind_all rest sockets (closed a.fd ∷ opened a.fd ∷ t) in
    let more : one (n == a.fd) + live n t ≡ times n with =
      let e = times-append n sockets (a.fd ∷ []) in omega (arith, e, h) in
    split (bind_all-LoopHolds n rest sockets t h)
      (bind_all-LoopHolds n rest with (bound a.fd ∷ opened a.fd ∷ t) more)
      (bind_all-LoopHolds n rest sockets (closed a.fd ∷ opened a.fd ∷ t) (omega (arith, h))) more
  where
    with : List ℕ
    with = sockets ++ (a.fd ∷ [])

    skipped : Loop
    skipped = bind_all rest sockets t

    bound_next : Loop
    bound_next = bind_all rest with (bound a.fd ∷ opened a.fd ∷ t)

    dropped : Loop
    dropped = bind_all rest sockets (closed a.fd ∷ opened a.fd ∷ t)

    bind_result : Option ℕ → Loop
    bind_result o = elim o [
      | none ↦ bound_next
      | some errno ↦
          if errno == eaddrnotavail
          then dropped
          else broken (bind_error errno) with (opened a.fd ∷ t)
    ]

    option_result : Option Exc → Loop
    option_result o = elim o [
      | some e ↦ broken e with (opened a.fd ∷ t)
      | none ↦ bind_result a.bind
    ]

    split :
        LoopHolds n skipped
        → LoopHolds n bound_next
        → LoopHolds n dropped
        → one (n == a.fd) + live n t ≡ times n with
        → LoopHolds n (if a.created then option_result a.options else skipped)
    split s b d m =
        if-cases (LoopHolds n) a.created (option_result a.options) skipped
          (λ _. options-LoopHolds b d m a.options) (λ _. s)
      where
        bind-LoopHolds :
            LoopHolds n bound_next
            → LoopHolds n dropped
            → one (n == a.fd) + live n t ≡ times n with
            → (o : Option ℕ) → LoopHolds n (bind_result o)
        bind-LoopHolds b d m none = b
        bind-LoopHolds b d m (some errno) =
            if-cases (LoopHolds n) (errno == eaddrnotavail) dropped
              (broken (bind_error errno) with (opened a.fd ∷ t)) (λ _. d) (λ _. m)

        options-LoopHolds :
            LoopHolds n bound_next
            → LoopHolds n dropped
            → one (n == a.fd) + live n t ≡ times n with
            → (o : Option Exc) → LoopHolds n (option_result o)
        options-LoopHolds b d m (some e) = m
        options-LoopHolds b d m none = bind-LoopHolds b d m a.bind

close_all-live :
    (n : ℕ) (sockets : List ℕ) (t : List Event)
    → live n (close_all sockets t) ≡ live n t - times n sockets
unfolding close_all
close_all-live n [] t = omega arith
close_all-live n (s ∷ sockets) t =
    let e = close_all-live n sockets (closed s ∷ t) in omega (arith, e)

-- The open sockets are those of the server, of which there is one at least, or there are none.
abbrev pub Holds : Result → Type 0
Holds (listening sockets t) = ((n : ℕ) → live n t ≡ times n sockets) × (is_empty sockets ≡ false)
Holds (failed e t) = (n : ℕ) → live n t ≡ 0

complete-Holds : (l : Loop) → ((n : ℕ) → LoopHolds n l) → Holds (complete l)
complete-Holds (finished sockets t) h =
    if-cases Holds (is_empty sockets) (failed no_address (close_all sockets t))
      (listening sockets t) (λ _ n. let e = close_all-live n sockets t in omega (arith, e, h n))
      (λ e. (h, e))
complete-Holds (broken x sockets t) h =
    λ n. let e = close_all-live n sockets t in omega (arith, e, h n)

-- Whatever the system answers, either the server gets at least one socket, and those that it gets
-- are exactly those that are open, or `create_server` raises and every socket that it opened is
-- closed: each descriptor counts as often as it was opened and not closed since.
pub bind_server-Holds : (answers : List Answer) → Holds (bind_server answers)
unfolding bind_server
bind_server-Holds answers =
    complete-Holds (bind_all answers [] []) (λ n. bind_all-LoopHolds n answers [] [] refl)
