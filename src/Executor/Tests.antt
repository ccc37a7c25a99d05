-- ===== src/Executor/Tests.antt =====
-- An interleaving with a submission, a `Close` while the task is queued, and the drain.
use gocudrv.Base.{◌+◌, ◌≤◌, ◌≡◌, ◌≢◌, refl, true, false, none, some, [], ◌∷◌}
use gocudrv.Executor.{
  Executor, Worker, Event, Reach, start, next, new, step, remove, enter, send, close, see_quit,
  drain_take, drain_finish, drain_empty, executor_closed,
}
use gocudrv.Executor.Shutdown.{
  is_work, work_left, cost, close_runs_accepted, close_never_stuck, close_terminates,
}

-- The task 5 is queued, `Close` has set its flags, and the worker has seen `quit`.
abbrev closing : Executor
closing = record new {
  tasks = 5 ∷ [];
  quit = true;
  closed = true;
  worker = Worker.draining;
  accepted = 5 ∷ [];
}

abbrev drained : Executor
drained = record closing { tasks = []; worker = Worker.running_last 5 }

abbrev ended : Executor
ended = record closing { tasks = []; done = true; worker = Worker.unlocked; executed = 5 ∷ [] }

closing_run : Reach closing
unfolding step remove
closing_run =
    next see_quit (next close (next (send 5) (next (enter false 5) start refl) refl) refl) refl

ended_run : Reach ended
unfolding step
ended_run = next drain_empty (next drain_finish (next drain_take closing_run refl) refl) refl

close_runs_accepted_example :
    (ended.executed ≡ ended.accepted) × (ended.tasks ≡ []) × (ended.senders ≡ [])
close_runs_accepted_example = close_runs_accepted ended_run refl

close_never_stuck_example : (ev : Event) × (is_work ev ≡ true) × (step closing ev ≢ none)
close_never_stuck_example = close_never_stuck closing_run refl refl

close_terminates_example :
    (work_left drained + cost drain_take ≤ work_left closing) × (work_left closing ≤ 5)
unfolding step
close_terminates_example = close_terminates drain_take closing_run refl refl

-- A caller that comes after `Close` is refused.
late_caller :
    step closing (enter false 6) ≡ some (record closing { refused = (6, executor_closed) ∷ [] })
unfolding step
late_caller = refl
