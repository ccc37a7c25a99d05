-- ===== src/Executor/Completion.antt =====
-- internal/executor/executor.go, `completion`: the caller and the worker hand one pooled result
-- channel to each other, and either may be done with it first. Every atomic action (a channel
-- operation, a swap of the state word) is one step, so all interleavings are covered.
pub mod Invariant
pub mod Safety
mod Tests
use gocudrv.Base.{ℕ, suc, ◌≡◌, Bool, true, false, Option, none, some}

-- The values of `completionState`.
pub data CompletionState : Type 0 where
  waiting abandoned received delivered : CompletionState

-- The one-place result channel and the state word. `E` is the type of the results.
pub record Completion (E : Type 0) : Type 0 where
  pub result : Option E
  pub state : CompletionState

-- `state.Swap(new)`: the old value, and the completion with the new one.
abbrev pub swap : {E : Type 0} → CompletionState → Completion E → CompletionState × Completion E
swap new c = (c.state, record c { state = new })

-- The channel after a send or a receive.
abbrev pub put : {E : Type 0} → Option E → Completion E → Completion E
put r c = record c { result = r }

-- Where the worker stands: it runs the job, sends the result and swaps (`delivered`), takes an
-- abandoned result back out of the channel, puts the completion into the pool, and is done.
pub data WorkerPc (E : Type 0) : Type 0 where
  sending : E → WorkerPc E
  swapping : WorkerPc E
  draining : WorkerPc E
  recycling : WorkerPc E
  done : WorkerPc E

-- Where the caller stands: it selects between the result and cancellation, swaps after a receive
-- (`received`) or a cancellation (`abandon`), takes the delivered result out, recycles, is done.
pub data CallerPc (E : Type 0) : Type 0 where
  selecting : CallerPc E
  receiving : E → CallerPc E
  abandoning : CallerPc E
  discarding : CallerPc E
  recycling : Option E → CallerPc E
  done : Option E → CallerPc E

-- `pooled` counts how often the completion was put into the pool.
pub record Handshake (E : Type 0) : Type 0 where
  pub shared : Completion E
  pub worker : WorkerPc E
  pub caller : CallerPc E
  pub pooled : ℕ

-- A submitted task whose job returns `e`: the completion comes empty out of the pool.
unfoldable pub start : {E : Type 0} → E → Handshake E
start e = record {
  shared = record { result = none; state = waiting };
  worker = sending e;
  caller = selecting;
  pooled = 0;
}

module _ {E : Type 0} where
  -- `delivered` after the swap: an abandoned result is taken back first, and the completion is
  -- recycled unless the caller is still to come.
  abbrev after_delivered : CompletionState → WorkerPc E
  after_delivered waiting = done
  after_delivered abandoned = draining
  after_delivered received = recycling
  after_delivered delivered = recycling

  -- `received` after the swap: the caller recycles if the worker has delivered.
  abbrev after_received : E → CompletionState → CallerPc E
  after_received e delivered = recycling (some e)
  after_received e _ = done (some e)

  -- `abandon` after the swap: a delivered result is taken out, and the completion recycled.
  abbrev after_abandon : CompletionState → CallerPc E
  after_abandon delivered = discarding
  after_abandon _ = done none

  -- `recycleCompletion`: the state is reset and the completion put into the pool.
  abbrev pub recycle_completion : Completion E → Completion E
  recycle_completion c = record c { state = waiting }

  -- One step of the worker (`runTask` from the send on); `none` where it blocks or is done.
  worker_at : WorkerPc E → Handshake E → Option (Handshake E)
  worker_at (sending e) h = elim h.shared.result [
    | none ↦ some (record h { shared = put (some e) h.shared; worker = swapping })
    | some _ ↦ none
  ]
  worker_at swapping h =
      let (previous, c) = swap delivered h.shared in
      some (record h { shared = c; worker = after_delivered previous })
  worker_at draining h = elim h.shared.result [
    | none ↦ none
    | some _ ↦ some (record h { shared = put none h.shared; worker = recycling })
  ]
  worker_at recycling h =
      some (record h { shared = recycle_completion h.shared; worker = done; pooled = suc h.pooled })
  worker_at done h = none

  unfoldable pub worker_step : Handshake E → Option (Handshake E)
  unfolding worker_at
  worker_step h = worker_at h.worker h

  -- One step of the caller. `true` says that it takes the branch of `ctx.Done()` in its `select`.
  caller_at : Bool → CallerPc E → Handshake E → Option (Handshake E)
  caller_at true selecting h = some (record h { caller = abandoning })
  caller_at false selecting h = elim h.shared.result [
    | none ↦ none
    | some e ↦ some (record h { shared = put none h.shared; caller = receiving e })
  ]
  caller_at _ (receiving e) h =
      let (previous, c) = swap received h.shared in
      some (record h { shared = c; caller = after_received e previous })
  caller_at _ abandoning h =
      let (previous, c) = swap abandoned h.shared in
      some (record h { shared = c; caller = after_abandon previous })
  caller_at _ discarding h = elim h.shared.result [
    | none ↦ none
    | some _ ↦ some (record h { shared = put none h.shared; caller = recycling none })
  ]
  caller_at _ (recycling r) h =
      some
        (record h { shared = recycle_completion h.shared; caller = done r; pooled = suc h.pooled })
  caller_at _ (done r) h = none

  unfoldable pub caller_step : Bool → Handshake E → Option (Handshake E)
  unfolding caller_at
  caller_step canceled h = caller_at canceled h.caller h

-- The interleavings: either side takes its next step.
pub data Reach {E : Type 0} (h : Handshake E) : Handshake E → Type 0 where
  here : Reach h h
  work : {u v : Handshake E} → Reach h u → worker_step u ≡ some v → Reach h v
  call :
      {u v : Handshake E} (canceled : Bool)
      → Reach h u
      → caller_step canceled u ≡ some v
      → Reach h v
