-- ===== src/Dispatch.antt =====
-- cuda/dispatch.go: the memory operations of a Context. The pooled operation object is the call that
-- its `Run` makes, with the fields that its kind reads; the pool is left out.
use gocudrv.Base.{ℕ, ◌%◌, Bool, true, false, ◌==◌, if◌then◌else◌}
use gocudrv.Driver.{Driver, Call}
use gocudrv.Driver.Calls.{transfer}
use gocudrv.Context.Exec.{GoContext}
use gocudrv.Context.State.{M}
use gocudrv.Context.Run.{do_copy, do_job}

-- The kinds that `run` sends to the copy executor.
abbrev pub is_blocking_copy : Call → Bool
is_blocking_copy (Call.memcpy_htod _ _ _) = true
is_blocking_copy (Call.memcpy_dtoh _ _ _) = true
is_blocking_copy (Call.memcpy_dtod _ _ _) = true
is_blocking_copy _ = false

-- The call of `opMemset8`, `opMemset16` or `opMemset32` that `memsetKind` picks by the element width.
unfoldable pub memset_call : ℕ → ℕ → ℕ → ℕ → Call
memset_call size dst val n =
    if size == 1
    then Call.memset_d8 dst (val % 256) n
    else if size == 2
    then Call.memset_d16 dst (val % 65536) n
    else Call.memset_d32 dst val n

unfoldable pub memset_async_call : ℕ → ℕ → ℕ → ℕ → ℕ → Call
memset_async_call size dst val n stream =
    if size == 1
    then Call.memset_d8_async dst (val % 256) n stream
    else if size == 2
    then Call.memset_d16_async dst (val % 65536) n stream
    else Call.memset_d32_async dst val n stream

module _ {W : Type 0} (d : Driver W) where
  -- `run`
  unfoldable pub run : ℕ → GoContext → Call → M W (Unit {0})
  unfolding do_copy do_job transfer
  run c g op =
      if is_blocking_copy op then do_copy d c g (transfer d op) else do_job d c g (transfer d op)
