-- ===== src/Tls/Close.antt =====
-- Closing a TLS transport: `_clear_write_backlog`, `_force_close`, `_fatal_error`, `_abort`,
-- `_on_handshake_complete`, `_on_shutdown_complete`, `_handle_error` and `_finalize_close`
-- (aiofastnet/ssl_transport.pyx).
use aiofastnet.Base.{Bool, true, false, not, ◌||◌, Option, none, some, [], ◌==◌, if◌then◌else◌}
use aiofastnet.Stream.Kernel
use aiofastnet.Tls.{
  Phase, unwrapped, in_handshake, wrapped, flushing, in_shutdown, Exc, system, connection_reset,
  reset_class, connection_aborted, ssl_failure, Waiter, waiting, woken, refused, connection_made,
  connection_lost, exception_handler, remove_reader, cancel_handshake_timer, cancel_shutdown_timer,
  call_soon_read, call_soon_finalize, close_socket, server_detach, Tls, Reply, ok, raised, and_then,
  done, emit, set_state, drop_writer,
}

-- The backlog holds no file, whose future would have to be settled.
unfoldable pub clear_write_backlog : Tls → Tls
clear_write_backlog s =
    if s.write_backlog_size == 0 then s else record s { write_backlog = []; write_backlog_size = 0 }

unfoldable pub schedule_finalize_close : Option Exc → Tls → Tls
schedule_finalize_close exc s =
    emit (call_soon_finalize exc)
      (record s { finalizing_close = true; finalize_scheduled = some exc })

unfoldable pub force_close : Option Exc → Tls → Tls
force_close exc s =
    if not s.sock || s.finalizing_close
    then s
    else schedule_finalize_close exc (emit remove_reader (drop_writer (clear_write_backlog s)))

-- `isinstance(exc, OSError)`: an SSLError is one.
unfoldable pub is_os_error : Exc → Bool
is_os_error (system (Kernel.os_error _)) = true
is_os_error (system Kernel.broken_pipe) = true
is_os_error connection_reset = true
is_os_error connection_aborted = true
is_os_error ssl_failure = true
is_os_error _ = false

-- With the socket, `_finalize_close` drops the loop, and its handler of exceptions.
unfoldable pub fatal_error : Exc → Tls → Tls
fatal_error exc s =
    let t = force_close (some exc) s in
    if is_os_error exc || not t.sock then t else emit (exception_handler exc) t

unfoldable pub settled : Option Exc → Waiter
settled none = woken
settled (some e) = refused e

unfoldable pub wakeup : Option Exc → Waiter → Waiter
wakeup exc waiting = settled exc
wakeup exc w = w

unfoldable pub wakeup_waiter : Option Exc → Tls → Tls
wakeup_waiter exc s = record s { waiter = wakeup exc s.waiter }

unfoldable pub cancel_handshake : Tls → Tls
cancel_handshake s =
    if s.handshake_timeout_handle
    then emit cancel_handshake_timer (record s { handshake_timeout_handle = false })
    else s

unfoldable pub call_connection_made : Tls → Tls
call_connection_made s =
    if s.protocol_connected || s.finalizing_close
    then s
    else emit connection_made (record s { protocol_connected = true })

-- `_on_handshake_complete`, with an exception and without.
unfoldable pub handshake_failed : Exc → Tls → Tls × Reply (Unit {0})
handshake_failed exc s =
    and_then (set_state unwrapped (cancel_handshake s))
      (λ _ t. done tt (wakeup_waiter (some exc) (fatal_error exc t)))

unfoldable pub handshake_made : Tls → Tls × Reply (Unit {0})
handshake_made s =
    and_then (set_state wrapped (cancel_handshake s))
      (λ _ t. done tt (emit call_soon_read (call_connection_made (wakeup_waiter none t))))

-- `_on_shutdown_complete`
unfoldable pub cancel_shutdown : Tls → Tls
cancel_shutdown s =
    if s.shutdown_timeout_handle
    then emit cancel_shutdown_timer (record s { shutdown_timeout_handle = false })
    else s

unfoldable pub on_shutdown_complete : Option Exc → Tls → Tls
on_shutdown_complete none s = force_close none (cancel_shutdown s)
on_shutdown_complete (some exc) s = fatal_error exc (cancel_shutdown s)

unfoldable pub abort : Phase → Option Exc → Tls → Tls × Reply (Unit {0})
abort unwrapped exc s = done tt (force_close exc s)
abort _ exc s = and_then (set_state unwrapped s) (λ _ t. done tt (force_close exc t))

-- `_handle_error`, of an exception that is not a KeyboardInterrupt or a SystemExit.
unfoldable pub handle_error : Phase → Exc → Tls → Tls × Reply (Unit {0})
handle_error in_handshake exc s = handshake_failed exc s
handle_error flushing exc s = done tt (on_shutdown_complete (some exc) s)
handle_error in_shutdown exc s = done tt (on_shutdown_complete (some exc) s)
handle_error _ exc s = done tt (fatal_error exc s)

-- `try` around a body, with `_handle_error` in its `except`.
unfoldable pub guard : Tls × Reply (Unit {0}) → Tls × Reply (Unit {0})
guard (s, ok u) = (s, ok u)
guard (s, raised e) = handle_error s.phase e s

-- `_process_eof`
unfoldable pub process_eof : Phase → Tls → Tls × Reply (Unit {0})
process_eof in_handshake s = handshake_failed reset_class s
process_eof wrapped s =
    and_then (set_state in_shutdown s) (λ _ t. done tt (on_shutdown_complete none t))
process_eof flushing s =
    and_then (set_state in_shutdown s) (λ _ t. done tt (on_shutdown_complete none t))
process_eof in_shutdown s = done tt (on_shutdown_complete none s)
process_eof unwrapped s = done tt s

-- `_finalize_close`, when the event loop makes the call that is scheduled.
unfoldable pub lose_connection : Option Exc → Tls → Tls
lose_connection exc s =
    if s.protocol_connected
    then emit (connection_lost exc) (record s { protocol_connected = false })
    else s

unfoldable pub close_sock : Tls → Tls
close_sock s = if s.sock then emit close_socket (record s { sock = false }) else s

unfoldable pub detach_server : Tls → Tls
detach_server s = if s.server then emit server_detach (record s { server = false }) else s

unfoldable pub finalize_close : Option Exc → Tls → Tls
finalize_close exc s =
    let t = close_sock (lose_connection exc s) in
    detach_server (record t { protocol_dropped = true })

unfoldable pub finalize : Option (Option Exc) → Tls → Tls
finalize none s = s
finalize (some exc) s = finalize_close exc (record s { finalize_scheduled = none })
