-- ===== src/Server/Waiters/Closing.antt =====
-- The calls after which a server may have come to its end, and those that keep it going
-- (aiofastnet/api_utils.py).
use aiofastnet.Base.{
  ℕ, suc, ◌≡◌, refl, sym, subst, ◌∙◌, Bool, true, false, ◌||◌, ◌&&◌, Option, none, some, List, [],
  ◌∷◌, ◌++◌, if-cases, is_some, is_none, contains, add, discard, discard_nil, is_empty,
  contains-append_left, contains-append_right, inl, inr, ◌⊎◌, Bool-cases, arith, ◌==◌, ◌≢◌,
}
use aiofastnet.Server.{
  Server, create_waiter, emit, wakeup, attach, detach, close, close_sockets, close_open, Reply,
  returned, raised, assertion_error, cancel_serving_forever, wait_closed,
}
use aiofastnet.Server.Waiters.{issued, woken, IsSettled, IsWaited, Frame, Ready, wakeup-IsWaited}
use aiofastnet.Server.Waiters.Frames.{close_sockets-quiet, cancel-Frame}

pub IsSettled-Ready :
    (w : Option (List ℕ)) (s : Server) → IsSettled w s → Ready w (issued s.trace) s.done
IsSettled-Ready none s (_, _, r) = r
IsSettled-Ready (some ws) s (_, r, _) = r

pub Frame-Ready :
    (s t : Server)
    → Frame s t
    → Ready s.waiters (issued s.trace) s.done
    → Ready t.waiters (issued t.trace) t.done
Frame-Ready s t (a, b, c, d, e, m) p =
    subst (λ w. Ready w (issued t.trace) t.done) (sym c)
      (subst (λ l. Ready s.waiters l t.done) (sym d) (grown s.waiters p))
  where
    grown :
        (w : Option (List ℕ)) → Ready w (issued s.trace) s.done → Ready w (issued s.trace) t.done
    grown none r = λ f h. m f (r f h)
    grown (some ws) r = r

pub is_empty-nil : (xs : List ℕ) → is_empty xs ≡ true → xs ≡ []
is_empty-nil [] h = refl
is_empty-nil (x ∷ xs) h = ground arith

pub is_empty-cons : (xs : List ℕ) → is_empty xs ≡ false → xs ≢ []
is_empty-cons [] h = ground arith
is_empty-cons (x ∷ xs) h = ground arith

-- A closed server with clients, which had waiters before.
pub closed-IsWaited :
    (socks : List ℕ) (s t : Server)
    → s.sockets ≡ some socks
    → t.waiters ≡ s.waiters
    → t.clients ≢ []
    → issued t.trace ≡ issued s.trace
    → woken t.trace ≡ woken s.trace
    → IsWaited s
    → IsWaited t
closed-IsWaited socks s t e c k d z p = subst (λ w. IsSettled w t) (sym c) (settled s.waiters p)
  where
    settled : (w : Option (List ℕ)) → IsSettled w s → IsSettled w t
    settled none (x, _, _) = ground (arith, x, e)
    settled (some ws) (x, y, v) = (λ _. k, λ f h. y f (subst (λ l. contains f l ≡ true) d h), z ∙ v)

pub is_none-none : (o : Option (List ℕ)) → is_none o ≡ true → o ≡ none
is_none-none none h = refl
is_none-none (some l) h = ground arith

pub and_left : (a b : Bool) → (a && b) ≡ true → a ≡ true
and_left a b h = ground arith

pub and_right : (a b : Bool) → (a && b) ≡ true → b ≡ true
and_right a b h = ground arith

pub both :
    (xs : List ℕ) (o : Option (List ℕ)) → (is_empty xs && is_none o) ≡ false → xs ≡ [] → o ≢ none
both xs o h e k = ground (arith, h, e, k)

pub close_open-IsWaited :
    (socks : List ℕ) (s : Server)
    → s.sockets ≡ some socks
    → IsWaited s
    → IsWaited (close_open socks s)
unfolding close_open
close_open-IsWaited socks s e p =
    let r = close_sockets socks s.readers s.trace in
    let s1 : Server = record s { sockets = none; readers = r.0; trace = r.1; serving = false } in
    let s2 = cancel_serving_forever s1 in
    let q = close_sockets-quiet socks s.readers s.trace in
    let u = cancel-Frame s1 in
    if-cases IsWaited (is_empty s2.clients) (wakeup s2) s2
      (λ k. wakeup-IsWaited s2 u.0 (is_empty-nil s2.clients k) (
        Frame-Ready s1 s2 u
          (subst (λ l. Ready s.waiters l s.done) (sym q.0) (IsSettled-Ready s.waiters s p))))
      (λ k. closed-IsWaited socks s s2 e u.2 (is_empty-cons s2.clients k) (u.3 ∙ q.0) (u.4 ∙ q.1) p)

pub close-IsWaited : (s : Server) → IsWaited s → IsWaited (close s)
unfolding close
close-IsWaited s p = closed s.sockets refl
  where
    closed :
        (o : Option (List ℕ))
        → s.sockets ≡ o
        → IsWaited (elim o [ none ↦ s | some socks ↦ close_open socks s ])
    closed none e = p
    closed (some socks) e = close_open-IsWaited socks s e p

pub detach-IsWaited : (t : ℕ) (s : Server) → IsWaited s → IsWaited (detach t s)
unfolding detach
detach-IsWaited t s p =
    let s1 : Server = record s { clients = discard t s.clients } in
    if-cases IsWaited (is_empty s1.clients && is_none s1.sockets) (wakeup s1) s1
      (λ k.
        wakeup-IsWaited s1
          (is_none-none s.sockets (and_right (is_empty s1.clients) (is_none s.sockets) k))
          (is_empty-nil s1.clients (and_left (is_empty s1.clients) (is_none s.sockets) k))
          (IsSettled-Ready s.waiters s p))
      (λ k. left k s.waiters p)
  where
    left :
        (is_empty (discard t s.clients) && is_none s.sockets) ≡ false
        → (w : Option (List ℕ)) → IsSettled w s
        → IsSettled w (record s { clients = discard t s.clients })
    left k none (x, y, z) = (x, subst (λ l. discard t l ≡ []) (sym y) (discard_nil t), z)
    left k (some ws) (x, y, z) = (λ h e. both (discard t s.clients) s.sockets k e h, y, z)

pub wait_closed-IsWaited : (s : Server) → IsWaited s → IsWaited (wait_closed s).0
unfolding wait_closed
wait_closed-IsWaited s p = waited s.waiters p
  where
    answer : Option (List ℕ) → Server × Option ℕ
    answer w = elim w [
      | none ↦ (s, none)
      | some ws ↦ (
        emit (create_waiter s.next_future) (record s {
          waiters = some (ws ++ (s.next_future ∷ []));
          next_future = suc s.next_future;
        }),
        some s.next_future,
      )
    ]

    waited : (w : Option (List ℕ)) → IsSettled w s → IsWaited (answer w).0
    waited none q = p
    waited (some ws) (x, y, z) = (x, λ f h. added f (Bool-cases (f == s.next_future)) h, z)
      where
        added :
            (f : ℕ)
            → ((f == s.next_future) ≡ true) ⊎ ((f == s.next_future) ≡ false)
            → (f == s.next_future || contains f (issued s.trace)) ≡ true
            → contains f (ws ++ (s.next_future ∷ [])) ≡ true
        added f (inl e) h = contains-append_right f ws (s.next_future ∷ []) (ground (arith, e))
        added f (inr e) h =
            contains-append_left f ws (s.next_future ∷ []) (y f (ground (arith, e, h)))

pub attach-IsWaited : (t : ℕ) (s : Server) → IsWaited s → IsWaited (attach t s).0
unfolding attach
attach-IsWaited t s p =
    if-cases {A = Server × Reply} (λ r. IsWaited r.0) (is_some s.sockets)
      (record s { clients = add t s.clients }, returned) (s, raised assertion_error)
      (λ k. attached k s.waiters p) (λ _. p)
  where
    attached :
        is_some s.sockets ≡ true
        → (w : Option (List ℕ)) → IsSettled w s
        → IsSettled w (record s { clients = add t s.clients })
    attached k none (x, _, _) = ground (arith, k, x)
    attached k (some ws) (x, y, z) = (λ h. ground (arith, k, h), y, z)
