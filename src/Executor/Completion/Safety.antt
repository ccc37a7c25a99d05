-- ===== src/Executor/Completion/Safety.antt =====
-- What the handshake on a completion promises, over every interleaving of its two sides.
use gocudrv.Base.{ℕ, ◌+◌, ◌≤◌, ◌<◌, ◌≡◌, ◌≢◌, ◌⊎◌, Bool, true, false, none, some, arith}
use gocudrv.Executor.Completion.{
  CompletionState, WorkerPc, CallerPc, Handshake, start, worker_step, caller_step, Reach,
}
use gocudrv.Executor.Completion.Invariant.{Inv, Reach-Inv}

module _ {E : Type 0} where
  abbrev pub caller_returned : CallerPc E → Bool
  caller_returned (CallerPc.done r) = true
  caller_returned _ = false

  abbrev pub worker_returned : WorkerPc E → Bool
  worker_returned WorkerPc.done = true
  worker_returned _ = false

  -- The completion is in the pool exactly when both sides are through with it, then once, with its
  -- channel empty and its state reset; before that it is not in the pool at all.
  abbrev pub PooledOnce : Handshake E → Type 0
  PooledOnce h =
      ((worker_returned h.worker ≡ true)
        × (caller_returned h.caller ≡ true)
        × (h.pooled ≡ 1)
        × (h.shared.result ≡ none)
        × (h.shared.state ≡ CompletionState.waiting))
      ⊎ ((h.pooled ≡ 0) × ((worker_returned h.worker ≡ false) ⊎ (caller_returned h.caller ≡ false)))

  Inv-PooledOnce : (e : E) (h : Handshake E) → Inv e h → PooledOnce h
  Inv-PooledOnce e h v = ground arith

  -- Whatever the order in which the caller and the worker act, and whether or not the caller
  -- cancels, the completion is put into the pool exactly once, only after both sides are through
  -- with it, with an empty channel and the initial state.
  pub completion-PooledOnce : (e : E) {h : Handshake E} → Reach (start e) h → PooledOnce h
  completion-PooledOnce e {h} r = Inv-PooledOnce e h (Reach-Inv e r)

  -- A side that can move: the worker has not returned and steps, or the caller steps.
  abbrev pub Progress : Handshake E → Type 0
  Progress h =
      ((worker_returned h.worker ≡ true) ⊎ (worker_step h ≢ none))
      × ((caller_returned h.caller ≡ true)
          ⊎ (caller_step false h ≢ none)
          ⊎ ((h.caller ≡ CallerPc.selecting)
              × (worker_returned h.worker ≡ false)
              × (caller_step true h ≢ none)))

  Inv-Progress : (e : E) (h : Handshake E) → Inv e h → Progress h
  unfolding worker_step caller_step
  Inv-Progress e h v = ground arith

  -- In every reachable state the worker can step until it returns (its send and its drain never
  -- block), and the caller can step until it returns, but for the `select` before the result is
  -- sent, where the worker has not returned and the cancellation branch is open.
  pub completion_never_blocks : (e : E) {h : Handshake E} → Reach (start e) h → Progress h
  completion_never_blocks e {h} r = Inv-Progress e h (Reach-Inv e r)

  abbrev worker_rank : WorkerPc E → ℕ
  worker_rank (WorkerPc.sending _) = 4
  worker_rank WorkerPc.swapping = 3
  worker_rank WorkerPc.draining = 2
  worker_rank WorkerPc.recycling = 1
  worker_rank WorkerPc.done = 0

  abbrev caller_rank : CallerPc E → ℕ
  caller_rank CallerPc.selecting = 4
  caller_rank (CallerPc.receiving _) = 3
  caller_rank CallerPc.abandoning = 3
  caller_rank CallerPc.discarding = 2
  caller_rank (CallerPc.recycling _) = 1
  caller_rank (CallerPc.done _) = 0

  -- How many steps the two sides have left at most.
  abbrev pub rank : Handshake E → ℕ
  rank h = worker_rank h.worker + caller_rank h.caller

  -- Every step of either side uses up at least one of the at most eight steps of a handshake.
  handshake_terminates :
      (canceled : Bool) (h h' : Handshake E)
      → (worker_step h ≡ some h') ⊎ (caller_step canceled h ≡ some h')
      → (rank h' < rank h) × (rank h ≤ 8)
  unfolding worker_step caller_step
  handshake_terminates canceled h h' s = ground arith

  Inv-result : (e x : E) (h : Handshake E) → Inv e h → h.caller ≡ CallerPc.done (some x) → x ≡ e
  Inv-result e x h v d = ground arith

  -- A caller that returns with a result returns the one that its own job produced.
  completion_result :
      (e x : E) {h : Handshake E} → Reach (start e) h → h.caller ≡ CallerPc.done (some x) → x ≡ e
  completion_result e x {h} r d = Inv-result e x h (Reach-Inv e r) d
