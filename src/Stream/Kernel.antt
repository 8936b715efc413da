-- ===== src/Stream/Kernel.antt =====
-- The write side of the operating system, and the wrappers that retry and classify its answers
-- (aiofastnet/utils.pyx; `_try_sendfile` of aiofastnet/transport.pyx). What the system will answer
-- is a list that the environment chooses: one answer to each call, and past its end every call
-- would block.

pub mod Wire
use aiofastnet.Base.{ℕ, min, List, [], ◌∷◌, ◌++◌, take, length, ◌==◌, if◌then◌else◌}

-- What can be raised.
pub data Exc : Type 0 where
  os_error : ℕ → Exc
  runtime_error value_error type_error assertion_error index_error attribute_error not_implemented :
      Exc
  broken_pipe : Exc

pub data Answer : Type 0 where
  -- the system takes up to so many bytes
  takes : ℕ → Answer
  -- EAGAIN or EWOULDBLOCK, and EINTR
  would_block interrupted : Answer
  fails : ℕ → Answer

-- The bytes that the system has taken, first to last, and its answers to come.
pub record Kernel : Type 0 where
  pub wire : List ℕ
  pub script : List Answer

-- The result of `aiofn_write`: a count, -1, or an exception.
pub data Sent : Type 0 where
  sent : ℕ → Sent
  again : Sent
  failed : Exc → Sent

abbrev taken : ℕ → List ℕ → List ℕ → List Answer → Kernel × Sent
taken n d wire script =
    if n == 0
    then (record { wire = wire; script = script }, failed runtime_error)
    else (record { wire = wire ++ take n d; script = script }, sent n)

-- `aiofn_write`, over the answers.
unfoldable pub write_script : List ℕ → List ℕ → List Answer → Kernel × Sent
write_script d wire [] = (record { wire = wire; script = [] }, again)
write_script d wire (takes n ∷ script) = taken (min n (length d)) d wire script
write_script d wire (would_block ∷ script) = (record { wire = wire; script = script }, again)
write_script d wire (interrupted ∷ script) = write_script d wire script
write_script d wire (fails e ∷ script) =
    (record { wire = wire; script = script }, failed (os_error e))

unfoldable pub aiofn_write : List ℕ → Kernel → Kernel × Sent
unfolding write_script
aiofn_write d k = write_script d k.wire k.script

unfoldable pub flatten : List (List ℕ) → List ℕ
flatten [] = []
flatten (d ∷ ds) = d ++ flatten ds

-- `aiofn_writev`: the buffers go out as one range.
unfoldable pub aiofn_writev : List (List ℕ) → Kernel → Kernel × Sent
aiofn_writev buffers k = aiofn_write (flatten buffers) k
