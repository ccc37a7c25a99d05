-- ===== src/Executor/Invariant.antt =====
-- What holds of an executor between two events, and that no interleaving breaks it.
use gocudrv.Base.{
  ℕ, ◌≤◌, ◌≡◌, Bool, true, false, some, List, [], ◌∷◌, ◌++◌, append_assoc, arith, length,
  length-append,
}
use gocudrv.Executor.{
  Executor, Refusal, canceled, executor_closed, remove, Worker, Event, Reach, start, next, new,
  step, enter, send, cancel, see_done, close, mark_retired, finish, drain_finish, turn_down,
}

-- The task that the worker runs.
abbrev pub current : Worker → List ℕ
current (Worker.running t) = t ∷ []
current (Worker.running_last t) = t ∷ []
current _ = []

-- `run` has returned.
abbrev pub has_ended : Worker → Bool
has_ended Worker.unlocked = true
has_ended Worker.quarantined = true
has_ended _ = false

-- The worker has seen `quit`.
abbrev pub is_quitting : Worker → Bool
is_quitting Worker.looping = false
is_quitting (Worker.running _) = false
is_quitting _ = true

pub record Inv (e : Executor) : Type 0 where
  pub in_order : e.accepted ≡ e.executed ++ (current e.worker ++ e.tasks)
  pub capped : length e.tasks ≤ 1
  pub flags : e.quit ≡ e.closed
  pub locked : e.closed ≡ true → e.senders ≡ []
  pub ended : e.done ≡ has_ended e.worker
  pub quitting : is_quitting e.worker ≡ true → e.closed ≡ true
  pub emptied : e.done ≡ true → e.tasks ≡ []

new-Inv : Inv new
new-Inv = ground arith

turn_down-Inv : (e f : Executor) (t : ℕ) (r : Refusal) → turn_down t r e ≡ some f → Inv e → Inv f
unfolding turn_down remove
turn_down-Inv e f t r s v = ground arith

-- Every event keeps the invariant.
pub step-Inv : (e f : Executor) (ev : Event) → step e ev ≡ some f → Inv e → Inv f
unfolding step
step-Inv e f (enter b t) s v = ground arith
step-Inv e f (send t) s v = ground (
  arith,
  append_assoc e.executed (current e.worker ++ e.tasks) (t ∷ []),
  append_assoc (current e.worker) e.tasks (t ∷ []),
  length-append e.tasks (t ∷ []),
)
step-Inv e f (cancel t) s v = turn_down-Inv e f t canceled s v
step-Inv e f (see_done t) s v = ground (arith, turn_down-Inv e f t executor_closed)
step-Inv e f close s v = ground arith
step-Inv e f mark_retired s v = ground arith
step-Inv e f finish s v = ground (arith, append_assoc e.executed (current e.worker) e.tasks)
step-Inv e f drain_finish s v = ground (arith, append_assoc e.executed (current e.worker) e.tasks)
step-Inv e f _ s v = ground arith

pub Reach-Inv : {e : Executor} → Reach e → Inv e
Reach-Inv start = new-Inv
Reach-Inv (next {e} {f} ev r s) = step-Inv e f ev s (Reach-Inv r)
