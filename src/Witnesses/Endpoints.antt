-- ===== src/Witnesses/Endpoints.antt =====
-- The theorems on servers, sockets, connections and loops at concrete inputs.
use aiofastnet.Base.{
  ℕ, suc, ◌≤◌, ◌≡◌, refl, true, false, none, some, List, [], ◌∷◌, length, arith, ◌==◌, inr,
  if◌then◌else◌, contains, is_some, ◌&&◌,
}
use aiofastnet.Buffer.{bytes, items}
use aiofastnet.Server
use aiofastnet.Server.{Server}
use aiofastnet.Server.Accepting.{
  Accept, connection, connection_aborted, blocking_io, accept_connection, tasks, arriving, created,
  Op, accept_call, begin_call, end_call, transport_finalized, close_call, start_serving_call,
  wait_closed_call,
}
use aiofastnet.Server.Accepting as Accepting
use aiofastnet.Server.Waiters.{IsWaited}
use aiofastnet.Server.Waiters.Steps.{run-IsWaited}
use aiofastnet.Server.Readers.{IsWatched, run-IsWatched}
use aiofastnet.Server.Backlog.{onto, accept_connection-tasks}
use aiofastnet.Connect.Interleave.{AddrInfo, interleave_addrinfos}
use aiofastnet.Connect.Order.{Keeps, interleave_addrinfos-Keeps}
use aiofastnet.Connect.{os_error, exhausted, Request, World, create_connection}
use aiofastnet.Connect.Ownership.{IsOwned, create_connection-IsOwned}
use aiofastnet.Listen.{Answer, Holds, bind_server, bind_server-Holds}
use aiofastnet.Sock.{done, retry, pending, result, PySock, Waiting, poll}
use aiofastnet.Sock.Sendall.{Sending, sock_sendall, sendall_run}
use aiofastnet.Sock.Sends.{Promised, sock_sendall-Promised}
use aiofastnet.Sock.Finish.{sendall_run-finishes}
use aiofastnet.Sock.Waits.{poll-answer}
use aiofastnet.Patch
use aiofastnet.Patch.{
  Method, builtin, patch_loop, get_original_loop_method, get_original-patch_loop, Patches,
  patch_loop-Patches,
}
use aiofastnet.Resolve.{
  Host, port_value, families, proto_of, number_of, ipaddr_info, IsNumeric, ipaddr_info-IsNumeric,
}
use aiofastnet.Establish.{Setup, context}
use aiofastnet.Arguments.{validate_bio_size, IsBioSize, validate_bio_size-IsBioSize}

-- A server that starts, gets a connection, is waited for, closes, and loses its connection.
abbrev served : List Op
served =
    start_serving_call
    ∷ accept_call (connection 7 ∷ connection_aborted ∷ blocking_io ∷ [])
    ∷ begin_call 7
    ∷ end_call false 7 (created 1)
    ∷ wait_closed_call
    ∷ close_call
    ∷ transport_finalized 1
    ∷ []

run-IsWaited_example : IsWaited (Accepting.run served (Server.init (3 ∷ 4 ∷ []) 100))
run-IsWaited_example = run-IsWaited served (3 ∷ 4 ∷ []) 100

run-IsWatched_example : IsWatched (Accepting.run served (Server.init (3 ∷ 4 ∷ []) 100))
run-IsWatched_example = run-IsWatched served (3 ∷ 4 ∷ []) 100

abbrev arrivals : List Accept
arrivals = connection 7 ∷ connection_aborted ∷ connection 8 ∷ blocking_io ∷ []

accept_connection-tasks_example :
    (tasks (accept_connection arrivals (Server.init (3 ∷ []) 2)).0.trace
      ≡ onto
          (arriving (suc (Server.init (3 ∷ []) 2).backlog) arrivals)
          (tasks (Server.init (3 ∷ []) 2).trace))
    × (length (arriving (suc (Server.init (3 ∷ []) 2).backlog) arrivals)
        ≤ suc (Server.init (3 ∷ []) 2).backlog)
accept_connection-tasks_example = accept_connection-tasks arrivals (Server.init (3 ∷ []) 2)

abbrev addresses : List AddrInfo
addresses =
    record { family = 10; sock_type = 1; proto = 6; address = 1 }
    ∷ record { family = 10; sock_type = 1; proto = 6; address = 2 }
    ∷ record { family = 2; sock_type = 1; proto = 6; address = 3 }
    ∷ []

interleave_addrinfos-Keeps_example :
    Keeps (λ a. a.family == 10) addresses (interleave_addrinfos addresses 1)
interleave_addrinfos-Keeps_example = interleave_addrinfos-Keeps (λ a. a.family == 10) addresses 1

-- The first address refuses, and the second one connects.
abbrev world : World
world = record {
  resolve = inr addresses;
  resolve_local = inr [];
  attempt = λ a. record {
    create = none;
    bind = λ l. none;
    connect = if a.address == 1 then some (os_error 111) else none;
  };
  race = λ infos locals. exhausted [] [];
  same_text = λ a b. true;
  make_transport = none;
}

abbrev request : Request
request = record {
  host_given = true;
  host_truth = true;
  port_given = true;
  ssl = false;
  hostname_given = false;
  invalid = none;
  sock = none;
  local_addr = false;
  happy_eyeballs = false;
  interleave = some 1;
  all_errors = false;
}

create_connection-IsOwned_example : IsOwned 1 (create_connection request world)
create_connection-IsOwned_example = create_connection-IsOwned request world (λ infos locals. refl)

abbrev two_addresses : List Answer
two_addresses =
    record { fd = 3; created = true; options = none; bind = some 99 }
    ∷ record { fd = 4; created = true; options = none; bind = none }
    ∷ []

bind_server-Holds_example : Holds (bind_server two_addresses)
bind_server-Holds_example = bind_server-Holds two_addresses

abbrev plain_sock : PySock
plain_sock = record { is_ssl = false; blocking = false; inet = true; owned = false }

sock_sendall-Promised_example :
    Promised
      (1 ∷ 2 ∷ 3 ∷ [])
      (retry ∷ done 9 ∷ [])
      (sock_sendall false plain_sock (bytes (1 ∷ 2 ∷ 3 ∷ [])) (done 1))
unfolding items
sock_sendall-Promised_example =
    sock_sendall-Promised false plain_sock (bytes (1 ∷ 2 ∷ 3 ∷ [])) (done 1) (retry ∷ done 9 ∷ [])
      refl

abbrev sending : Sending
sending = record { view = 1 ∷ 2 ∷ 3 ∷ []; sent = 1; wire = 1 ∷ []; future = pending }

sendall_run-finishes_example : (sendall_run (done 1 ∷ done 5 ∷ []) sending).future ≡ result tt
sendall_run-finishes_example =
    sendall_run-finishes (done 1 ∷ done 5 ∷ []) sending (omega arith, (omega arith, tt)) refl
      (omega arith) (omega arith)

abbrev received : Waiting ℕ
received = record { future = pending; registered = true; answers = retry ∷ done 5 ∷ done 6 ∷ [] }

poll-answer_example :
    poll 4 received ≡ record { future = result 5; registered = true; answers = done 6 ∷ [] }
poll-answer_example = poll-answer 4 1 true (done 5) (done 6 ∷ []) refl (omega arith)

abbrev unpatched : Patch.Loop
unpatched = record { method = λ name. some (builtin name); originals = λ name. none; patched = [] }

get_original-patch_loop_example :
    get_original_loop_method (patch_loop (2 ∷ 3 ∷ []) (patch_loop (1 ∷ 2 ∷ []) unpatched)) 2
    ≡ some (builtin 2)
get_original-patch_loop_example =
    get_original-patch_loop (1 ∷ 2 ∷ []) (2 ∷ 3 ∷ []) unpatched 2 ((λ name. refl), refl)

patch_loop-Patches_example :
    Patches unpatched.method (patch_loop (1 ∷ 2 ∷ []) unpatched)
    × ((name : ℕ)
        → contains name (patch_loop (1 ∷ 2 ∷ []) unpatched).patched
          ≡ contains name (1 ∷ 2 ∷ []) && is_some (unpatched.method name))
patch_loop-Patches_example = patch_loop-Patches (1 ∷ 2 ∷ []) unpatched ((λ name. refl), refl)

abbrev localhost : Host
localhost = record { name = 1; has_percent = false }

ipaddr_info-IsNumeric_example :
    IsNumeric
      (λ af name. af == 2)
      (families true 0)
      1
      (proto_of 1)
      (number_of (port_value (some 80)))
      1
      (ipaddr_info (λ af name. af == 2) true (some localhost) (port_value (some 80)) 0 1 0 0 0)
ipaddr_info-IsNumeric_example =
    ipaddr_info-IsNumeric (λ af name. af == 2) true localhost (port_value (some 80)) 0 1 0 0 0

validate_bio_size-IsBioSize_example :
    IsBioSize (some 16384) true (validate_bio_size (some 16384) true)
validate_bio_size-IsBioSize_example = validate_bio_size-IsBioSize (some 16384) true

abbrev tls_client : Setup
tls_client = record {
  fallback = false;
  ssl = context false;
  server = false;
  buffered = false;
  dyn_libs = true;
  unblock = none;
  factory = none;
  made_context = none;
  construct = none;
  carrier = none;
  asyncio_connect = none;
  waiter = some 7;
}
