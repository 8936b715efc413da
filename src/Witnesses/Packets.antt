-- ===== src/Witnesses/Packets.antt =====
-- The theorems on datagram transports and addresses at concrete inputs.
use aiofastnet.Base.{ℕ, ◌≡◌, Option, true, false, none, some, is_some, List, [], ◌∷◌, refl}
use aiofastnet.Buffer.{bytes, view}
use aiofastnet.Buffer
use aiofastnet.Datagram.{
  takes, would_block, fails, Sender, Op, sendto_call, write_ready_event, close_call, run,
}
use aiofastnet.Sockaddr.{af_inet6, text, number, tuple_addr, pyaddr_to_sockaddr}
use aiofastnet.Sockaddr.Meaning.{answer, meaning, pyaddr_to_sockaddr-answer}
use aiofastnet.Datagram.Order.{Takes, accepted, run-Takes}

-- A transport on a socket that is not connected, with a system that is busy and then refuses once.
abbrev sender : Sender
sender = record {
  attempts = [];
  script = takes ∷ would_block ∷ fails 111 ∷ takes ∷ [];
  address = none;
  has_connection = false;
  write_backlog = [];
  write_backlog_size = 0;
  watermarks = record { low_water = 16384; high_water = 65536; paused = false };
  closed_write_count = 0;
  write_ready_registered = false;
  read_paused = false;
  closing = false;
  finalizing_close = false;
  trace = [];
}

abbrev sends : List Op
sends =
    sendto_call (bytes (1 ∷ 2 ∷ [])) (some 5)
    ∷ sendto_call (bytes (3 ∷ [])) none
    ∷ sendto_call (bytes []) (some 6)
    ∷ sendto_call (view true 2 (4 ∷ 9 ∷ [])) (some 5)
    ∷ write_ready_event
    ∷ close_call
    ∷ []

run-Takes_example : Takes (accepted is_some sends sender) sender (run is_some sends sender)
unfolding Buffer.items Buffer.maybe_copy
run-Takes_example =
    run-Takes is_some sends sender (refl, (refl, (refl, (refl, (tt, (tt, tt)))))) refl

-- A host is a name that `inet_pton` takes if it has one byte.
abbrev one_byte : List ℕ → Option ℕ
one_byte (x ∷ []) = some x
one_byte _ = none

abbrev as_byte : ℕ → List ℕ
as_byte n = n ∷ []

pyaddr_to_sockaddr-answer_example :
    answer as_byte as_byte (
      pyaddr_to_sockaddr one_byte one_byte af_inet6
        (tuple_addr (text (7 ∷ 0 ∷ 8 ∷ []) ∷ number 80 ∷ number 4294967295 ∷ number 5 ∷ [])))
    ≡ meaning as_byte as_byte one_byte one_byte af_inet6
        (tuple_addr (text (7 ∷ 0 ∷ 8 ∷ []) ∷ number 80 ∷ number 4294967295 ∷ number 5 ∷ []))
pyaddr_to_sockaddr-answer_example =
    pyaddr_to_sockaddr-answer as_byte as_byte one_byte one_byte af_inet6
      (tuple_addr (text (7 ∷ 0 ∷ 8 ∷ []) ∷ number 80 ∷ number 4294967295 ∷ number 5 ∷ []))
