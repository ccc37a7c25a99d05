-- ===== src/Context/Run.antt =====
-- cuda/context.go: running commands on the executors of a Context.
use gocudrv.Base.{ℕ, suc, Bool, true, false, Option, none, some, List, [], ◌∷◌, ◌==◌, if◌then◌else◌}
use gocudrv.Driver.Errors.{Err, sentinel, nil_context, context_closed, context_error, ok, err}
use gocudrv.Driver.{Driver, Cmd, pure as noop}
use gocudrv.Driver.Calls.{ctx_set_current}
use gocudrv.Context.Exec.{Exec, GoContext, background, do_wait, do_ctx}
use gocudrv.Context.Lanes.{WaitLane}
use gocudrv.Context.State.{Context, Store, M, put_context, in_world}

module _ {W : Type 0} (d : Driver W) where
  -- `executor.New`
  abbrev pub fresh_exec : Store W → Exec
  fresh_exec s = record { thread = s.next_thread; is_closed = false }

  -- `newExecutor`: a new pinned thread on which the context is made current; a thread where that
  -- fails is retired and closed.
  unfoldable pub new_executor : Context → M W Exec
  unfolding ctx_set_current do_wait
  new_executor x s =
      let s' = record s { next_thread = suc s.next_thread } in
      let (r, w) = do_wait (fresh_exec s) background (ctx_set_current d x.raw) s.world in
      elim r [
        | ok _ ↦ (ok (fresh_exec s), record s' { world = w })
        | err e ↦ (err e, record s' { world = w; quarantined = s.next_thread ∷ s.quarantined })
      ]

  -- `copyExecutor`
  unfoldable pub copy_executor : ℕ → M W Exec
  unfolding new_executor
  copy_executor c s = elim (s.contexts c).copy_exec [
    | some x ↦ (ok x, s)
    | none ↦
        (let (r, s') = new_executor (s.contexts c) s in
          elim r [
            | ok x ↦ (ok x, put_context c (record (s.contexts c) { copy_exec = some x }) s')
            | err e ↦ (err e, s')
          ])
  ]

  -- The guards that `doCopyJob`, `doCopyWait` and `doJobCtx` share, in their order.
  abbrev pub guards : Context → GoContext → Option Err
  guards x g = elim x.exec [
    | none ↦ some (sentinel nil_context)
    | some _ ↦
        if x.closed
        then some (sentinel context_closed)
        else elim g.at_guard [ some n ↦ some (context_error n) | none ↦ x.command_err ]
  ]

  module _ {A : Type 0} where
    -- `doCopyJob` and `doCopyWait`
    unfoldable pub do_copy : ℕ → GoContext → Cmd W A → M W A
    unfolding copy_executor
    do_copy c g job s = elim (guards (s.contexts c) g) [
      | some e ↦ (err e, s)
      | none ↦
          (let (r, s') = copy_executor c s in
            elim r [ ok x ↦ in_world (do_wait x g job) s' | err e ↦ (err e, s') ])
    ]

    -- `doJob`: a canceled context is looked at before the error of a lost command executor only.
    unfoldable pub do_job : ℕ → GoContext → Cmd W A → M W A
    unfolding do_wait
    do_job c g job s = elim (s.contexts c).exec [
      | none ↦ (err (sentinel nil_context), s)
      | some x ↦
          if (s.contexts c).closed
          then (err (sentinel context_closed), s)
          else elim (s.contexts c).command_err [
            | some e ↦ (err (elim g.at_guard [ some n ↦ context_error n | none ↦ e ]), s)
            | none ↦ in_world (do_wait x g job) s
          ]
    ]

  -- The loop of `syncBarrier`: a job that does nothing goes through every lane; the first error ends it.
  unfoldable pub barrier_lanes : List WaitLane → GoContext → W → Option Err
  unfolding do_ctx
  barrier_lanes [] g w = none
  barrier_lanes (lane ∷ lanes) g w =
      let rest = barrier_lanes lanes g w in
      elim (do_ctx lane.exec g (noop {A = Unit {0}} tt) w).0 [ ok _ ↦ rest | err e ↦ some e ]

  -- `syncBarrier`
  unfoldable pub sync_barrier : Context → GoContext → W → Option Err
  unfolding barrier_lanes
  sync_barrier x g w = if x.sync_active == 0 then none else barrier_lanes x.wait_lanes g w

  module _ {A : Type 0} where
    -- The last part of `doWith`, on a live command executor: after the barrier, if one is asked for.
    unfoldable pub submit_with : Context → Exec → GoContext → Cmd W A → Bool → Bool → M W A
    unfolding sync_barrier do_wait do_ctx
    submit_with x y g job true true s = elim g.at_guard [
      | some n ↦ (err (context_error n), s)
      | none ↦ elim (sync_barrier x g s.world) [
        | some e ↦ (err e, s)
        | none ↦ in_world (do_wait y g job) s
      ]
    ]
    submit_with x y g job true false s = elim g.at_guard [
      | some n ↦ (err (context_error n), s)
      | none ↦ in_world (do_wait y g job) s
    ]
    submit_with x y g job false barrier s = in_world (do_ctx y g job) s

    -- `doWith`
    unfoldable pub do_with : ℕ → GoContext → Cmd W A → Bool → Bool → M W A
    unfolding submit_with
    do_with c g job wait_after barrier_before s = elim (s.contexts c).exec [
      | none ↦ (err (sentinel nil_context), s)
      | some y ↦
          if (s.contexts c).closed
          then (err (sentinel context_closed), s)
          else elim (s.contexts c).command_err [
            | some e ↦ (err (elim g.at_guard [ some n ↦ context_error n | none ↦ e ]), s)
            | none ↦ submit_with (s.contexts c) y g job wait_after barrier_before s
          ]
    ]

    -- `do`, `doWait` and `doBarrier`
    abbrev pub do_plain : ℕ → GoContext → Cmd W A → M W A
    do_plain c g job = do_with c g job false false

    abbrev pub do_waited : ℕ → GoContext → Cmd W A → M W A
    do_waited c g job = do_with c g job true false

    abbrev pub do_barrier : ℕ → GoContext → Cmd W A → M W A
    do_barrier c g job = do_with c g job true true
