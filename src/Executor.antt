-- ===== src/Executor.antt =====
-- internal/executor/executor.go: one worker goroutine on a pinned thread, a one-place task channel,
-- and any number of callers. A task is a number. An event is one atomic action of the worker, of a
-- caller or of `Close`; a list of events is an interleaving. Spinning before parking changes no
-- state and is left out. The result of a task travels through its completion (Executor/Completion).
pub mod Completion
pub mod Invariant
pub mod Shutdown
mod Tests
use gocudrv.Base.{
  ℕ, ◌≡◌, Bool, true, false, Option, none, some, List, [], ◌∷◌, ◌++◌, ◌==◌, if◌then◌else◌, ltb,
  length,
}

-- The outcome of a submission that is turned down.
pub data Refusal : Type 0 where
  canceled executor_closed : Refusal

-- Where `run` stands: in its loop, running a task from the loop, in `drain`, running a task from
-- `drain`, returned with the thread unlocked, or parked for good on the locked thread.
pub data Worker : Type 0 where
  looping : Worker
  running : ℕ → Worker
  draining : Worker
  running_last : ℕ → Worker
  unlocked : Worker
  quarantined : Worker

-- `senders` are the callers inside `submit` that hold the read lock and wait in its `select`.
-- The last three fields are history: tasks sent, tasks run to their end, tasks turned down.
pub record Executor : Type 0 where
  pub tasks : List ℕ
  pub quit : Bool
  pub done : Bool
  pub closed : Bool
  pub retire : Bool
  pub senders : List ℕ
  pub worker : Worker
  pub accepted : List ℕ
  pub executed : List ℕ
  pub refused : List (ℕ × Refusal)

-- `New`
abbrev pub new : Executor
new = record {
  tasks = [];
  quit = false;
  done = false;
  closed = false;
  retire = false;
  senders = [];
  worker = Worker.looping;
  accepted = [];
  executed = [];
  refused = [];
}

-- The capacity of the channel `tasks`.
abbrev pub task_capacity : ℕ
task_capacity = 1

pub data Event : Type 0 where
  -- `submit` up to its `select`; `true` where the context has been canceled before
  enter : Bool → ℕ → Event
  -- the three branches of the `select`: the task is sent, `ctx.Done()`, `e.done`
  send : ℕ → Event
  cancel : ℕ → Event
  see_done : ℕ → Event
  -- `Close` inside its critical section, and `Retire`
  close : Event
  mark_retired : Event
  -- `run`: a task is received, a task ends, `quit` is seen
  take : Event
  finish : Event
  see_quit : Event
  -- `drain`: a task is received, a task ends, the channel is empty
  drain_take : Event
  drain_finish : Event
  drain_empty : Event

-- The other senders, if `t` is one.
pub remove : ℕ → List ℕ → Option (List ℕ)
remove t [] = none
remove t (x ∷ xs) =
    let rest = remove t xs in
    if x == t then some xs else elim rest [ none ↦ none | some ys ↦ some (x ∷ ys) ]

-- `submit` before its `select`: a canceled context, then the read lock and the `closed` flag.
submit_enter : Bool → ℕ → Executor → Executor
submit_enter true t e = record e { refused = e.refused ++ (t, canceled) ∷ [] }
submit_enter false t e =
    if e.closed
    then record e { refused = e.refused ++ (t, executor_closed) ∷ [] }
    else record e { senders = t ∷ e.senders }

-- A sender leaves `submit` with an error, giving its lock back.
turn_down : ℕ → Refusal → Executor → Option Executor
unfolding remove
turn_down t r e = elim (remove t e.senders) [
  | none ↦ none
  | some rest ↦ some (record e { senders = rest; refused = e.refused ++ (t, r) ∷ [] })
]

-- A sender puts its task into the channel, if there is room, and gives its lock back.
submit_send : ℕ → Executor → Option Executor
unfolding remove
submit_send t e = elim (remove t e.senders) [
  | none ↦ none
  | some rest ↦
      if ltb (length e.tasks) task_capacity
      then some
          (record e { tasks = e.tasks ++ t ∷ []; senders = rest; accepted = e.accepted ++ t ∷ [] })
      else none
]

-- `Close`: the write lock is free only when no sender holds a read lock; `closeOnce` admits one call.
begin_close : Executor → Option Executor
begin_close e = elim e.senders [
  | [] ↦ if e.closed then none else some (record e { closed = true; quit = true })
  | _ ∷ _ ↦ none
]

-- `finishThread`
finish_thread : Executor → Executor
finish_thread e = record e {
  done = true;
  worker = if e.retire then Worker.quarantined else Worker.unlocked;
}

-- What the worker does in each of its places; `none` where the event is not open to it.
work : Worker → Event → Executor → Option Executor
unfolding finish_thread
work Worker.looping take e = elim e.tasks [
  | [] ↦ none
  | t ∷ rest ↦ some (record e { tasks = rest; worker = Worker.running t })
]
work Worker.looping see_quit e =
    if e.quit then some (record e { worker = Worker.draining }) else none
work (Worker.running t) finish e =
    some (record e { executed = e.executed ++ t ∷ []; worker = Worker.looping })
work Worker.draining drain_take e = elim e.tasks [
  | [] ↦ none
  | t ∷ rest ↦ some (record e { tasks = rest; worker = Worker.running_last t })
]
work (Worker.running_last t) drain_finish e =
    some (record e { executed = e.executed ++ t ∷ []; worker = Worker.draining })
work Worker.draining drain_empty e = elim e.tasks [ [] ↦ some (finish_thread e) | _ ∷ _ ↦ none ]
work _ _ e = none

-- One event; `none` where it cannot happen.
unfoldable pub step : Executor → Event → Option Executor
unfolding submit_enter turn_down submit_send begin_close work
step e (enter is_canceled t) = some (submit_enter is_canceled t e)
step e (send t) = submit_send t e
step e (cancel t) = turn_down t canceled e
step e (see_done t) = if e.done then turn_down t executor_closed e else none
step e close = begin_close e
step e mark_retired = some (record e { retire = true })
step e ev = work e.worker ev e

-- The states that an interleaving leads to.
pub data Reach : Executor → Type 0 where
  start : Reach new
  next : {e f : Executor} (ev : Event) → Reach e → step e ev ≡ some f → Reach f
