-- ===== src/Executor/Shutdown.antt =====
-- What `Close` promises: nothing is accepted after it, every task accepted before it has been run by
-- the time it returns, and it does return.
use gocudrv.Base.{
  ℕ, ◌+◌, ◌*◌, ◌≤◌, ◌≡◌, ◌≢◌, Bool, true, false, none, some, List, [], ◌∷◌, append-nil, arith,
  length, if◌then◌else◌,
}
use gocudrv.Executor.{
  Executor, Worker, Event, Reach, step, enter, send, cancel, see_done, take, finish, see_quit,
  drain_take, drain_finish, drain_empty, remove,
}
use gocudrv.Executor.Invariant.{Inv, Reach-Inv}

Inv-executed : (e : Executor) → Inv e → e.done ≡ true → e.executed ≡ e.accepted
Inv-executed e v d = ground (arith, append-nil e.executed)

-- When `done` is closed, so that `Close` returns, the tasks that were ever accepted have all been
-- run to their end, each as often as it was accepted, in the order of acceptance; no task is left in
-- the channel, and no caller waits inside `submit`.
pub close_runs_accepted :
    {e : Executor}
    → Reach e
    → e.done ≡ true
    → (e.executed ≡ e.accepted) × (e.tasks ≡ []) × (e.senders ≡ [])
close_runs_accepted {e} r d = let v = Reach-Inv r in (Inv-executed e v d, v.emptied d, ground arith)

Inv-step-accepted :
    (e f : Executor) (ev : Event)
    → Inv e
    → e.closed ≡ true
    → step e ev ≡ some f
    → (f.accepted ≡ e.accepted) × (f.closed ≡ true)
unfolding step remove
Inv-step-accepted e f (enter b t) v c s = ground arith
Inv-step-accepted e f (send t) v c s = ground arith
Inv-step-accepted e f (cancel t) v c s = ground arith
Inv-step-accepted e f (see_done t) v c s = ground arith
Inv-step-accepted e f _ v c s = ground arith

-- After `Close` has entered its critical section no event adds an accepted task, and the executor
-- stays closed.
closed_accepts_nothing :
    {e f : Executor} (ev : Event)
    → Reach e
    → e.closed ≡ true
    → step e ev ≡ some f
    → (f.accepted ≡ e.accepted) × (f.closed ≡ true)
closed_accepts_nothing {e} {f} ev r c s = Inv-step-accepted e f ev (Reach-Inv r) c s

Inv-see_done : (e : Executor) (t : ℕ) → Inv e → step e (see_done t) ≡ none
unfolding step remove
Inv-see_done e t v = ground arith

-- The branch of `e.done` in the `select` of `submit` is never taken: no interleaving closes `done`
-- while a caller holds the read lock.
see_done_unreachable : {e : Executor} (t : ℕ) → Reach e → step e (see_done t) ≡ none
see_done_unreachable {e} t r = Inv-see_done e t (Reach-Inv r)

-- The worker's events, and the one that is open to it in a closed executor.
abbrev pub is_work : Event → Bool
is_work take = true
is_work finish = true
is_work see_quit = true
is_work drain_take = true
is_work drain_finish = true
is_work drain_empty = true
is_work _ = false

abbrev open_event : Worker → List ℕ → Event
open_event Worker.looping ts = see_quit
open_event (Worker.running _) ts = finish
open_event Worker.draining [] = drain_empty
open_event Worker.draining (_ ∷ _) = drain_take
open_event (Worker.running_last _) ts = drain_finish
open_event _ ts = take

abbrev rank : Worker → ℕ
rank Worker.looping = 2
rank (Worker.running _) = 3
rank Worker.draining = 1
rank (Worker.running_last _) = 2
rank _ = 0

-- The worker events that are left at most in a closed executor.
abbrev pub work_left : Executor → ℕ
work_left e = 2 * length e.tasks + rank e.worker

Inv-open_event :
    (e : Executor)
    → Inv e
    → e.closed ≡ true
    → e.done ≡ false
    → (is_work (open_event e.worker e.tasks) ≡ true) × (step e (open_event e.worker e.tasks) ≢ none)
unfolding step
Inv-open_event e v c d = ground arith

-- One for an event of the worker, nothing for any other.
abbrev pub cost : Event → ℕ
cost ev = if is_work ev then 1 else 0

Inv-work_left :
    (e f : Executor) (ev : Event)
    → Inv e
    → e.closed ≡ true
    → step e ev ≡ some f
    → work_left f + cost ev ≤ work_left e
unfolding step remove
Inv-work_left e f (enter b t) v c s = ground arith
Inv-work_left e f (send t) v c s = ground arith
Inv-work_left e f (cancel t) v c s = ground arith
Inv-work_left e f (see_done t) v c s = ground arith
Inv-work_left e f _ v c s = ground arith

-- Once `Close` has entered its critical section, an event of the worker is open to it until `done`
-- is closed, so that the wait of `Close` for `done` never deadlocks.
pub close_never_stuck :
    {e : Executor}
    → Reach e
    → e.closed ≡ true
    → e.done ≡ false
    → (ev : Event) × (is_work ev ≡ true) × (step e ev ≢ none)
close_never_stuck {e} r c d =
    let (w, n) = Inv-open_event e (Reach-Inv r) c d in (open_event e.worker e.tasks, w, n)

-- Each event of the worker in a closed executor uses up one of at most five that are left, and no
-- event of a caller adds any, so that `Close` returns after at most five steps of the worker.
pub close_terminates :
    {e f : Executor} (ev : Event)
    → Reach e
    → e.closed ≡ true
    → step e ev ≡ some f
    → (work_left f + cost ev ≤ work_left e) × (work_left e ≤ 5)
close_terminates {e} {f} ev r c s =
    let v = Reach-Inv r in (Inv-work_left e f ev v c s, ground (arith, v.capped))
