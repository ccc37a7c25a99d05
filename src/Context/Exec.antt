-- ===== src/Context/Exec.antt =====
-- An executor as its callers see it (internal/executor/executor.go): a pinned thread that runs one
-- job at a time. How the worker, the callers and `Close` interleave is the subject of Executor.
use gocudrv.Base.{ℕ, Bool, true, false, Option, none, some, if◌then◌else◌}
use gocudrv.Driver.Errors.{sentinel, executor_closed, context_error, Result, err}
use gocudrv.Driver.{Cmd}

pub record Exec : Type 0 where
  pub thread : ℕ
  pub is_closed : Bool

-- A Go `context.Context` by what its observers see: the error of `ctx.Err()` at the guard of a
-- Context method, at the submission to an executor, and while waiting for the result.
pub record GoContext : Type 0 where
  pub at_guard : Option ℕ
  pub at_submit : Option ℕ
  pub at_wait : Option ℕ

-- `context.Background()`, which also stands for a nil context.
abbrev pub background : GoContext
background = record { at_guard = none; at_submit = none; at_wait = none }

-- Whether `DoJobCtx` returns while the job that it submitted still runs.
abbrev pub abandoned : Exec → GoContext → Bool
abandoned x g = elim g.at_submit [
  | some _ ↦ false
  | none ↦ if x.is_closed then false else (elim g.at_wait [ some _ ↦ true | none ↦ false ])
]

module _ {W A : Type 0} where
  -- `DoJob` and `DoCtxWait`: a canceled context or a closed executor keep the job from running; a
  -- job that is accepted is waited for.
  unfoldable pub do_wait : Exec → GoContext → Cmd W A → W → Result A × W
  do_wait x g job w = elim g.at_submit [
    | some n ↦ (err (context_error n), w)
    | none ↦ if x.is_closed then (err (sentinel executor_closed), w) else job x.thread w
  ]

  -- `DoCtx` and `DoJobCtx`: a context that is canceled during the wait hides the result of a job that
  -- still runs. What the job does to the world is placed before the return.
  unfoldable pub do_ctx : Exec → GoContext → Cmd W A → W → Result A × W
  unfolding do_wait
  do_ctx x g job w = elim g.at_submit [
    | some n ↦ (err (context_error n), w)
    | none ↦
        if x.is_closed
        then (err (sentinel executor_closed), w)
        else (let (r, w') = job x.thread w in
            elim g.at_wait [ some n ↦ (err (context_error n), w') | none ↦ (r, w') ])
  ]
