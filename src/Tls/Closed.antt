-- ===== src/Tls/Closed.antt =====
-- What closing and the handling of errors come to (aiofastnet/ssl_transport.pyx).
use aiofastnet.Base.{
  ℕ, ◌≤◌, ◌≡◌, refl, sym, ap, ◌∙◌, subst, true, false, not, ◌||◌, Option, none, some, List, [],
  ◌++◌, ◌==◌, append-nil, if-cases, Bool-cases, inl, inr, arith,
}
use aiofastnet.Tls.{
  Phase, unwrapped, in_handshake, wrapped, flushing, in_shutdown, allowed, Exc, reset_class,
  illegal_switch, exception_handler, remove_reader, cancel_handshake_timer, cancel_shutdown_timer,
  connection_made, call_soon_read, Tls, Reply, ok, raised, and_then, done, emit, set_state,
  drop_writer,
}
use aiofastnet.Tls.Close.{
  clear_write_backlog, schedule_finalize_close, force_close, is_os_error, fatal_error,
  wakeup_waiter, cancel_handshake, call_connection_made, handshake_failed, handshake_made,
  cancel_shutdown, on_shutdown_complete, abort, handle_error, guard, process_eof,
}
use aiofastnet.Tls.Calm.{
  rank, Lands, held, held_of, Breaks, same-After, IsWired, IsSound, Calm, After, Calm-refl,
  Calm-IsSound, Calms-After, Calm-After, After-and_then, taken-held, drop_writer-Calm,
  drop_writer-gone,
}

-- What a transport that can be closed has.
abbrev pub IsMendable : Tls → Type 0
IsMendable s = IsWired s × (s.finalizing_close ≡ true → s.write_backlog_size ≡ 0)

-- The close is final.
abbrev pub Shut : Tls → Tls → Type 0
Shut s t =
    (rank s.phase ≤ rank t.phase)
    × (t.finalizing_close ≡ true)
    × IsWired t
    × (t.write_backlog_size ≡ 0)
    × (t.taken ≡ s.taken)

cleared-Shut :
    (exc : Option Exc) (s : Tls)
    → IsWired s
    → s.sock ≡ true
    → s.write_backlog_size ≡ 0
    → Shut s (schedule_finalize_close exc (emit remove_reader (drop_writer s)))
unfolding schedule_finalize_close
cleared-Shut exc s w o z =
    let c : Calm s (drop_writer s) = drop_writer-Calm s in
    (
      omega (arith, ap rank c.0.0),
      refl,
      ((c.0.5 w).0, (λ _. drop_writer-gone s o), (λ _. refl), λ _. refl),
      c.0.4 ∙ z,
      c.1,
    )

pub force_close-Shut : (exc : Option Exc) (s : Tls) → IsMendable s → Shut s (force_close exc s)
unfolding force_close clear_write_backlog
force_close-Shut exc s h =
    if-cases (Shut s) (not s.sock || s.finalizing_close) s
      (schedule_finalize_close exc (emit remove_reader (drop_writer (clear_write_backlog s))))
      (λ e. over (gone e))
      (λ e.
        if-cases (λ t. Shut s (schedule_finalize_close exc (emit remove_reader (drop_writer t))))
          (s.write_backlog_size == 0) s (record s { write_backlog = []; write_backlog_size = 0 })
          (λ z. cleared-Shut exc s h.0 (ground arith) (ground arith))
          (λ _.
            cleared-Shut exc (record s { write_backlog = []; write_backlog_size = 0 }) h.0
              (ground arith) refl))
  where
    gone : (not s.sock || s.finalizing_close) ≡ true → s.finalizing_close ≡ true
    gone e = elim (Bool-cases s.sock) [ inl o ↦ ground arith | inr o ↦ h.0.2 o ]

    over : s.finalizing_close ≡ true → Shut s s
    over f = (omega arith, f, h.0, h.1 f, refl)

fatal_error-Shut : (exc : Exc) (s : Tls) → IsMendable s → Shut s (fatal_error exc s)
unfolding fatal_error
fatal_error-Shut exc s h =
    let t : Tls = force_close (some exc) s in
    if-cases (Shut s) (is_os_error exc || not t.sock) t (emit (exception_handler exc) t)
      (λ _. force_close-Shut (some exc) s h) (λ _. force_close-Shut (some exc) s h)

Shut-IsSound : (s t : Tls) → Shut s t → IsSound t
Shut-IsSound s t h = (h.2, (λ f. absurd (ground (arith, h.1))), λ _. h.3)

Shut-held : (s t : Tls) → Shut s t → held t ≡ s.taken
Shut-held s t h = ap (λ b. held_of b t.taken t.write_backlog) h.1 ∙ h.4

rank_top : (p : Phase) → rank p ≤ 4
rank_top unwrapped = omega arith
rank_top in_handshake = omega arith
rank_top wrapped = omega arith
rank_top flushing = omega arith
rank_top in_shutdown = omega arith

pub IsSound-IsMendable : (s : Tls) → IsSound s → IsMendable s
IsSound-IsMendable s h = (h.0, h.2)

-- The end of a part that closes.
pub Shut-After : (s t : Tls) → Shut s t → After {A = Unit {0}} s (t, ok tt)
Shut-After s t h =
    let k : (lost : List ℕ) × (s.taken ++ lost ≡ held s) =
      taken-held s.finalizing_close s.taken s.write_backlog in
    (
      (h.0, λ _. h.1),
      Shut-IsSound s t h,
      (k.0, (ap (λ d. d ++ k.0) (Shut-held s t h) ∙ k.1, λ f. absurd (ground (arith, h.1)))),
    )

-- Closing mends what an exception left.
Breaks-Shut : (s t u : Tls) (e : Exc) → Breaks s t e → Shut t u → After {A = Unit {0}} s (u, ok tt)
Breaks-Shut s t u e x h = (
  (omega (arith, h.0, x.0.0), λ _. h.1),
  Shut-IsSound t u h,
  (x.2.0, (ap (λ d. d ++ x.2.0) (Shut-held t u h) ∙ x.2.1, λ f. absurd (ground (arith, h.1)))),
)

-- A switch of the phase to one that is allowed and not lower.
pub set_state-After :
    (p q : Phase) (s : Tls)
    → s.phase ≡ p
    → allowed p q ≡ true
    → rank p ≤ rank q
    → IsSound s
    → After s (set_state q s)
unfolding set_state
set_state-After p q s e a r h =
    if-cases (After s) (allowed s.phase q) (record s { phase = q }, ok tt)
      (s, raised illegal_switch)
      (λ _. ((omega (arith, ap rank e), λ f. f), h, ([], (append-nil (held s), λ _. refl))))
      (λ f. absurd (ground (arith, ap (λ x. allowed x q) e)))

pub set_state-Lands : (q : Phase) (s : Tls) → Lands q (set_state q s)
unfolding set_state
set_state-Lands q s =
    if-cases (Lands q) (allowed s.phase q) (record s { phase = q }, ok tt)
      (s, raised illegal_switch) (λ _. refl) (λ _. tt)

allowed-unwrapped : (p : Phase) → allowed p unwrapped ≡ true
unfolding allowed
allowed-unwrapped unwrapped = refl
allowed-unwrapped in_handshake = refl
allowed-unwrapped wrapped = refl
allowed-unwrapped flushing = refl
allowed-unwrapped in_shutdown = refl

-- The switch to UNWRAPPED is always allowed.
abbrev unwrapped_now : Tls → Tls × Reply (Unit {0})
unwrapped_now s = (record s { phase = unwrapped }, ok tt)

set_state-unwrapped : (s : Tls) → set_state unwrapped s ≡ unwrapped_now s
unfolding set_state
set_state-unwrapped s =
    if-cases (λ r. r ≡ unwrapped_now s) (allowed s.phase unwrapped)
      (record s { phase = unwrapped }, ok tt) (s, raised illegal_switch) (λ _. refl)
      (λ f. absurd (ground (arith, allowed-unwrapped s.phase)))

cancel_handshake-Calm : (s : Tls) → Calm s (cancel_handshake s)
unfolding cancel_handshake
cancel_handshake-Calm s =
    if-cases (Calm s) s.handshake_timeout_handle
      (emit cancel_handshake_timer (record s { handshake_timeout_handle = false })) s
      (λ _. ((refl, refl, refl, refl, refl, λ h. h), refl)) (λ _. Calm-refl s)

cancel_shutdown-Calm : (s : Tls) → Calm s (cancel_shutdown s)
unfolding cancel_shutdown
cancel_shutdown-Calm s =
    if-cases (Calm s) s.shutdown_timeout_handle
      (emit cancel_shutdown_timer (record s { shutdown_timeout_handle = false })) s
      (λ _. ((refl, refl, refl, refl, refl, λ h. h), refl)) (λ _. Calm-refl s)

Calm-IsMendable : (s t : Tls) → Calm s t → IsMendable s → IsMendable t
Calm-IsMendable s t c h = (c.0.5 h.0, λ f. c.0.4 ∙ h.1 (sym c.0.1 ∙ f))

Calm-Shut : (s t u : Tls) → Calm s t → Shut t u → Shut s u
Calm-Shut s t u c h = (omega (arith, h.0, ap rank c.0.0), h.1, h.2, h.3, h.4 ∙ c.1)

-- `_on_handshake_complete` with an exception.
abbrev pub Shuts : Tls → Tls × Reply (Unit {0}) → Type 0
Shuts s (t, ok _) = Shut s t
Shuts s (t, raised e) = ⊥

pub handshake_failed-Shuts : (exc : Exc) (s : Tls) → IsMendable s → Shuts s (handshake_failed exc s)
unfolding handshake_failed wakeup_waiter
handshake_failed-Shuts exc s h =
    let t : Tls = cancel_handshake s in
    let u : Tls = record t { phase = unwrapped } in
    let c : Calm s t = cancel_handshake-Calm s in
    let m : IsMendable u = Calm-IsMendable s t c h in
    let k : Shut u (fatal_error exc u) = fatal_error-Shut exc u m in
    subst
      (λ r. Shuts s (and_then r (λ _ v. done tt (wakeup_waiter (some exc) (fatal_error exc v)))))
      (sym (set_state-unwrapped t)) (omega (arith, k.0, rank_top s.phase), k.1, k.2, k.3, k.4 ∙ c.1)

pub on_shutdown_complete-Shut :
    (exc : Option Exc) (s : Tls) → IsMendable s → Shut s (on_shutdown_complete exc s)
unfolding on_shutdown_complete
on_shutdown_complete-Shut none s h =
    let t : Tls = cancel_shutdown s in
    Calm-Shut s t (force_close none t) (cancel_shutdown-Calm s)
      (force_close-Shut none t (Calm-IsMendable s t (cancel_shutdown-Calm s) h))
on_shutdown_complete-Shut (some exc) s h =
    let t : Tls = cancel_shutdown s in
    Calm-Shut s t (fatal_error exc t) (cancel_shutdown-Calm s)
      (fatal_error-Shut exc t (Calm-IsMendable s t (cancel_shutdown-Calm s) h))

unwrap-Shuts :
    (exc : Option Exc) (s : Tls)
    → IsMendable s
    → Shuts s (and_then (set_state unwrapped s) (λ _ t. done tt (force_close exc t)))
unwrap-Shuts exc s h =
    let u : Tls = record s { phase = unwrapped } in
    let k : Shut u (force_close exc u) = force_close-Shut exc u h in
    subst (λ r. Shuts s (and_then r (λ _ t. done tt (force_close exc t))))
      (sym (set_state-unwrapped s)) (omega (arith, k.0, rank_top s.phase), k.1, k.2, k.3, k.4)

pub abort-Shuts : (p : Phase) (exc : Option Exc) (s : Tls) → IsMendable s → Shuts s (abort p exc s)
unfolding abort
abort-Shuts unwrapped exc s h = force_close-Shut exc s h
abort-Shuts in_handshake exc s h = unwrap-Shuts exc s h
abort-Shuts wrapped exc s h = unwrap-Shuts exc s h
abort-Shuts flushing exc s h = unwrap-Shuts exc s h
abort-Shuts in_shutdown exc s h = unwrap-Shuts exc s h

handle_error-Shuts :
    (p : Phase) (exc : Exc) (s : Tls) → IsMendable s → Shuts s (handle_error p exc s)
unfolding handle_error
handle_error-Shuts in_handshake exc s h = handshake_failed-Shuts exc s h
handle_error-Shuts flushing exc s h = on_shutdown_complete-Shut (some exc) s h
handle_error-Shuts in_shutdown exc s h = on_shutdown_complete-Shut (some exc) s h
handle_error-Shuts wrapped exc s h = fatal_error-Shut exc s h
handle_error-Shuts unwrapped exc s h = fatal_error-Shut exc s h

pub Shuts-After : (s : Tls) (r : Tls × Reply (Unit {0})) → Shuts s r → After s r
Shuts-After s (t, ok tt) h = Shut-After s t h
Shuts-After s (t, raised e) h = absurd h

-- A call that always returns.
abbrev pub Ends : Tls → Tls × Reply (Unit {0}) → Type 0
Ends s (t, ok u) = After {A = Unit {0}} s (t, ok u)
Ends s (t, raised e) = ⊥

pub Shuts-Ends : (s : Tls) (r : Tls × Reply (Unit {0})) → Shuts s r → Ends s r
Shuts-Ends s (t, ok tt) h = Shut-After s t h
Shuts-Ends s (t, raised e) h = absurd h

-- `_handle_error` catches whatever a body raises.
pub guard-Ends : (s : Tls) (r : Tls × Reply (Unit {0})) → After s r → Ends s (guard r)
unfolding guard
guard-Ends s (t, ok u) x = x
guard-Ends s (t, raised e) x =
    mended (handle_error t.phase e t) (handle_error-Shuts t.phase e t x.1)
  where
    mended : (r : Tls × Reply (Unit {0})) → Shuts t r → Ends s r
    mended (u, ok tt) k = Breaks-Shut s t u e x k
    mended (u, raised f) k = absurd k

call_connection_made-Calm : (s : Tls) → Calm s (call_connection_made s)
unfolding call_connection_made
call_connection_made-Calm s =
    if-cases (Calm s) (s.protocol_connected || s.finalizing_close) s
      (emit connection_made (record s { protocol_connected = true })) (λ _. Calm-refl s)
      (λ _. ((refl, refl, refl, refl, refl, λ h. h), refl))

pub handshake_made-After :
    (s : Tls) → s.phase ≡ in_handshake → IsSound s → After s (handshake_made s)
unfolding handshake_made wakeup_waiter allowed
handshake_made-After s e h =
    let t : Tls = cancel_handshake s in
    let c : Calm s t = cancel_handshake-Calm s in
    Calm-After s t
      (and_then (set_state wrapped t)
        (λ _ u. done tt (emit call_soon_read (call_connection_made (wakeup_waiter none u)))))
      c
      (After-and_then t (set_state wrapped t)
        (λ _ u. done tt (emit call_soon_read (call_connection_made (wakeup_waiter none u))))
        (set_state-After in_handshake wrapped t (c.0.0 ∙ e) refl (omega arith)
          (Calm-IsSound s t c h))
        (λ _ u _ k.
          let v : Tls = wakeup_waiter none u in
          let d : Calm v (call_connection_made v) = call_connection_made-Calm v in
          Calms-After u (emit call_soon_read (call_connection_made v), ok tt) k
            ((d.0.0, d.0.1, d.0.2, d.0.3, d.0.4, λ w. d.0.5 w), d.1)))

eof-After :
    (p : Phase) (s : Tls)
    → s.phase ≡ p
    → allowed p in_shutdown ≡ true
    → rank p ≤ 3
    → IsSound s
    → After s (and_then (set_state in_shutdown s) (λ _ t. done tt (on_shutdown_complete none t)))
eof-After p s e a r h =
    After-and_then s (set_state in_shutdown s) (λ _ t. done tt (on_shutdown_complete none t))
      (set_state-After p in_shutdown s e a r h)
      (λ _ t _ k.
        Shut-After t (on_shutdown_complete none t)
          (on_shutdown_complete-Shut none t (IsSound-IsMendable t k)))

pub process_eof-After : (p : Phase) (s : Tls) → s.phase ≡ p → IsSound s → After s (process_eof p s)
unfolding process_eof allowed
process_eof-After in_handshake s e h =
    Shuts-After s (handshake_failed reset_class s)
      (handshake_failed-Shuts reset_class s (IsSound-IsMendable s h))
process_eof-After wrapped s e h = eof-After wrapped s e refl (omega arith) h
process_eof-After flushing s e h = eof-After flushing s e refl (omega arith) h
process_eof-After in_shutdown s e h =
    Shut-After s (on_shutdown_complete none s)
      (on_shutdown_complete-Shut none s (IsSound-IsMendable s h))
process_eof-After unwrapped s e h = same-After s h
