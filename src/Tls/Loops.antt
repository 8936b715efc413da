-- ===== src/Tls/Loops.antt =====
-- The calls of the engine and the loops around them: handshake, read, write and shutdown
-- (aiofastnet/ssl_transport.pyx), with the loops of the engine's own `read` and `write`
-- (aiofastnet/ssl_engine_direct.pyx), which ask OpenSSL again for what is left.
use aiofastnet.Base.{
  ℕ, ◌+◌, ◌-◌, Bool, true, false, not, Option, none, some, List, [], ◌∷◌, ◌++◌, take, drop, length,
  ◌==◌, if◌then◌else◌,
}
use aiofastnet.Tls.{
  Phase, wrapped, flushing, SslError, ssl, want_read, want_write, syscall, zero_return, Answer,
  progress, stops, Exc, connection_reset, ssl_failure, eof_received, Tls, Reply, raised, and_then,
  done, emit, flush_outgoing_bio, put_records, maybe_pause, maybe_resume,
}
use aiofastnet.Tls.Close.{handshake_made}

-- The engine has used up one answer.
abbrev pub answered : List Answer → List ℕ → Tls → Tls
answered script c s = put_records c (record s { script = script })

-- `_do_handshake` around the engine's `do_handshake`.
unfoldable pub handshake_script : List Answer → Tls → Tls × Reply (Unit {0})
handshake_script [] s = and_then (flush_outgoing_bio (record s { script = [] })) (λ _ t. done tt t)
handshake_script (progress _ _ c ∷ script) s =
    and_then (handshake_made (answered script c s))
      (λ _ t. and_then (flush_outgoing_bio t) (λ _ u. done tt u))
handshake_script (stops want_read c ∷ script) s =
    and_then (flush_outgoing_bio (answered script c s)) (λ _ t. done tt t)
handshake_script (stops want_write c ∷ script) s =
    and_then (flush_outgoing_bio (answered script c s))
      (λ retry t. if retry then handshake_script script t else done tt t)
handshake_script (stops _ c ∷ script) s = (answered script c s, raised ssl_failure)

unfoldable pub do_handshake : Tls → Tls × Reply (Unit {0})
do_handshake s = handshake_script s.script s

-- The exception that the engine's `read` and `write` raise, if they do not return the error.
unfoldable pub read_failure : SslError → Exc
read_failure syscall = connection_reset
read_failure _ = ssl_failure

unfoldable pub write_failure : SslError → Exc
write_failure ssl = ssl_failure
write_failure _ = connection_reset

-- `_write_impl` around the engine's `write`: the tail that is left, if any is, of data whose items are
-- single bytes.
unfoldable pub write_script : List Answer → List ℕ → Tls → Tls × Reply (Option (List ℕ))
write_script script [] s = done none (record s { script = script })
write_script [] (x ∷ d) s = done (some (x ∷ d)) (record s { script = [] })
write_script (progress n _ c ∷ script) (x ∷ d) s =
    write_script script (drop n d)
      (record (answered script c s) { taken = s.taken ++ x ∷ take n d })
write_script (stops want_read c ∷ script) (x ∷ d) s = done (some (x ∷ d)) (answered script c s)
write_script (stops want_write c ∷ script) (x ∷ d) s =
    and_then (flush_outgoing_bio (answered script c s))
      (λ retry t. if retry then write_script script (x ∷ d) t else done (some (x ∷ d)) t)
write_script (stops e c ∷ script) (x ∷ d) s = (answered script c s, raised (write_failure e))

unfoldable pub write_impl : List ℕ → Tls → Tls × Reply (Option (List ℕ))
write_impl d s = write_script s.script d s

-- `_append_to_backlog`, of data whose items are single bytes.
unfoldable pub append_to_backlog : List ℕ → Bool → Tls → Tls
append_to_backlog [] pause s = s
append_to_backlog (x ∷ d) pause s =
    let t : Tls = record s {
      write_backlog = s.write_backlog ++ (x ∷ d) ∷ [];
      write_backlog_size = s.write_backlog_size + length (x ∷ d);
    } in
    if pause then maybe_pause t else t

-- `_flush_write_backlog`: the items that are done leave the backlog when the loop and the flush are
-- over.
unfoldable pub flush_items : List (List ℕ) → Tls → Tls × Reply (List (List ℕ))
flush_items [] s = done [] s
flush_items (d ∷ ds) s = and_then (write_impl d s) (λ tail t. elim tail [
  | none ↦ flush_items ds (record t { write_backlog_size = t.write_backlog_size - length d })
  | some rest ↦
      done (rest ∷ ds)
        (record t { write_backlog_size = t.write_backlog_size - length d + length rest })
])

unfoldable pub flush_backlog : Tls → Tls × Reply (Unit {0})
flush_backlog s = and_then (flush_items s.write_backlog s) (λ left t.
    and_then (flush_outgoing_bio t)
      (λ _ u. done tt (maybe_resume (record u { write_backlog = left }))))

unfoldable pub flush_write_backlog : Phase → Tls → Tls × Reply (Unit {0})
flush_write_backlog wrapped s = if s.write_backlog_size == 0 then done tt s else flush_backlog s
flush_write_backlog flushing s = if s.write_backlog_size == 0 then done tt s else flush_backlog s
flush_write_backlog _ s = done tt s

unfoldable pub call_eof_received : Tls → Tls
call_eof_received s =
    if not s.protocol_connected
    then s
    else if s.protocol_eof_received
    then s
    else emit eof_received (record s { protocol_eof_received = true })

-- `_should_retry_read` after an answer that stopped a read; `leave` is its `_start_shutdown`.
unfoldable pub should_retry_read :
    (Tls → Tls × Reply (Unit {0})) → SslError → Tls → Tls × Reply Bool
should_retry_read leave want_read s = done false s
should_retry_read leave want_write s = flush_outgoing_bio s
should_retry_read leave zero_return s = and_then (leave (call_eof_received s)) (λ _ t. done false t)
should_retry_read leave e s = (s, raised (read_failure e))
