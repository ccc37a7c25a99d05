-- ===== src/Executor/Completion/Invariant.antt =====
-- What holds of a completion between two steps of its caller and its worker.
use gocudrv.Base.{ℕ, ◌≡◌, refl, Bool, Option, none, some, arith}
use gocudrv.Executor.Completion.{
  CompletionState, waiting, abandoned, received, delivered, WorkerPc, CallerPc, Handshake, start,
  worker_step, caller_step, Reach, here, work, call,
}

module _ {E : Type 0} where
  -- The channel, the state word and the count of puts, given where the two sides stand.
  -- `e` is what the job returned.
  abbrev pub Good : E → WorkerPc E → CallerPc E → Option E → CompletionState → ℕ → Type 0
  Good e (WorkerPc.sending x) CallerPc.selecting r s n =
      (x ≡ e) × (r ≡ none) × (s ≡ waiting) × (n ≡ 0)
  Good e (WorkerPc.sending x) CallerPc.abandoning r s n =
      (x ≡ e) × (r ≡ none) × (s ≡ waiting) × (n ≡ 0)
  Good e (WorkerPc.sending x) (CallerPc.done none) r s n =
      (x ≡ e) × (r ≡ none) × (s ≡ abandoned) × (n ≡ 0)
  Good e WorkerPc.swapping CallerPc.selecting r s n = (r ≡ some e) × (s ≡ waiting) × (n ≡ 0)
  Good e WorkerPc.swapping (CallerPc.receiving x) r s n =
      (x ≡ e) × (r ≡ none) × (s ≡ waiting) × (n ≡ 0)
  Good e WorkerPc.swapping CallerPc.abandoning r s n = (r ≡ some e) × (s ≡ waiting) × (n ≡ 0)
  Good e WorkerPc.swapping (CallerPc.done none) r s n = (r ≡ some e) × (s ≡ abandoned) × (n ≡ 0)
  Good e WorkerPc.swapping (CallerPc.done (some x)) r s n =
      (x ≡ e) × (r ≡ none) × (s ≡ received) × (n ≡ 0)
  Good e WorkerPc.draining (CallerPc.done none) r s n = (r ≡ some e) × (s ≡ delivered) × (n ≡ 0)
  Good e WorkerPc.recycling (CallerPc.done none) r s n = (r ≡ none) × (s ≡ delivered) × (n ≡ 0)
  Good e WorkerPc.recycling (CallerPc.done (some x)) r s n =
      (x ≡ e) × (r ≡ none) × (s ≡ delivered) × (n ≡ 0)
  Good e WorkerPc.done CallerPc.selecting r s n = (r ≡ some e) × (s ≡ delivered) × (n ≡ 0)
  Good e WorkerPc.done (CallerPc.receiving x) r s n =
      (x ≡ e) × (r ≡ none) × (s ≡ delivered) × (n ≡ 0)
  Good e WorkerPc.done CallerPc.abandoning r s n = (r ≡ some e) × (s ≡ delivered) × (n ≡ 0)
  Good e WorkerPc.done CallerPc.discarding r s n = (r ≡ some e) × (s ≡ abandoned) × (n ≡ 0)
  Good e WorkerPc.done (CallerPc.recycling none) r s n = (r ≡ none) × (s ≡ abandoned) × (n ≡ 0)
  Good e WorkerPc.done (CallerPc.recycling (some x)) r s n =
      (x ≡ e) × (r ≡ none) × (s ≡ received) × (n ≡ 0)
  Good e WorkerPc.done (CallerPc.done none) r s n = (r ≡ none) × (s ≡ waiting) × (n ≡ 1)
  Good e WorkerPc.done (CallerPc.done (some x)) r s n =
      (x ≡ e) × (r ≡ none) × (s ≡ waiting) × (n ≡ 1)
  Good _ _ _ _ _ _ = ⊥

  abbrev pub Inv : E → Handshake E → Type 0
  Inv e h = Good e h.worker h.caller h.shared.result h.shared.state h.pooled

  pub start-Inv : (e : E) → Inv e (start e)
  unfolding start
  start-Inv e = (refl, refl, refl, refl)

  pub worker_step-Inv : (e : E) (h h' : Handshake E) → worker_step h ≡ some h' → Inv e h → Inv e h'
  unfolding worker_step
  worker_step-Inv e h h' s v = ground arith

  pub caller_step-Inv :
      (e : E) (canceled : Bool) (h h' : Handshake E)
      → caller_step canceled h ≡ some h'
      → Inv e h
      → Inv e h'
  unfolding caller_step
  caller_step-Inv e canceled h h' s v = ground arith

  pub Reach-Inv : (e : E) {h : Handshake E} → Reach (start e) h → Inv e h
  Reach-Inv e here = start-Inv e
  Reach-Inv e (work {u} {v} r s) = worker_step-Inv e u v s (Reach-Inv e r)
  Reach-Inv e (call {u} {v} canceled r s) = caller_step-Inv e canceled u v s (Reach-Inv e r)
