-- ===== src/Stream/Delivery.antt =====
-- What a stream transport keeps true of its backlog and of the bytes that it was given
-- (aiofastnet/transport.pyx, `StreamTransport`).
pub mod Queue
pub mod Write
pub mod Lines
pub mod Sendfile
pub mod Consume
pub mod Rounds
pub mod Drain
pub mod History
pub mod Ending
use aiofastnet.Base.{
  ℕ, ◌+◌, ◌≤◌, ◌<◌, ◌≡◌, ◌⊎◌, Bool, true, false, not, Option, none, some, List, [], ◌∷◌, ◌++◌,
  length, All, is_some, ◌==◌,
}
use aiofastnet.Stream.State.{Stream, Request, write_request, sendfile_request, request_size}
use aiofastnet.Stream.State.Core.{Core, core}
use aiofastnet.Stream.Sendfile.{remaining}

-- The bytes that a queued request still has to send.
abbrev pub pending_of : Request → List ℕ
pending_of (write_request d) = d
pending_of (sendfile_request r) = remaining r

abbrev pub pending : List Request → List ℕ
pending [] = []
pending (r ∷ rs) = pending_of r ++ pending rs

abbrev pub total : List Request → ℕ
total [] = 0
total (r ∷ rs) = request_size r + total rs

-- A queued request has something to send; a queued transfer lies inside its file, and somebody
-- awaits it.
abbrev pub IsReady : Request → Type 0
IsReady (write_request d) = 0 < length d
IsReady (sendfile_request r) =
    (0 < r.count) × (r.offset + r.count ≤ length r.file) × (is_some r.waiter ≡ true)

pub record IsConsistent (c : Core) : Type 0 where
  -- the counter is the size of the backlog
  pub sized : c.size ≡ total c.backlog
  pub ready : All IsReady c.backlog
  -- the socket is watched for readiness exactly while something is queued
  pub watching : c.registered ≡ not (c.size == 0)
  -- a transport that is torn down is closing and has nothing queued
  pub ending : (c.finalizing ≡ false) ⊎ ((c.closing ≡ true) × (c.backlog ≡ []))
  -- a closing transport is torn down, or still has something to send
  pub busy : (c.closing ≡ false) ⊎ (c.finalizing ≡ true) ⊎ (0 < c.size)

-- Of the bytes `sub` a front is on the wire; until the transport is torn down the rest is exactly
-- what is queued.
abbrev pub Ledger : List ℕ → Core → Type 0
Ledger sub c =
    (rest : List ℕ) × (c.wire ++ rest ≡ sub) × ((c.finalizing ≡ true) ⊎ (rest ≡ pending c.backlog))

abbrev pub Good : List ℕ → Core → Type 0
Good sub c = IsConsistent c × Ledger sub c
