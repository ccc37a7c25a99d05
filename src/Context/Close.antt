-- ===== src/Context/Close.antt =====
-- cuda/context.go: `Primary`, and the teardown of a Context.
use gocudrv.Base.{ℕ, suc, Bool, true, false, Option, none, some, List, [], ◌∷◌, if◌then◌else◌}
use gocudrv.Driver.Errors.{Err, sentinel, nil_context, join, Result, ok, err}
use gocudrv.Driver.{Driver, Cmd, ◌>>=◌, pure, fail, try}
use gocudrv.Driver.Calls.{ctx_set_current, primary_ctx_retain, primary_ctx_release}
use gocudrv.Context.Exec.{Exec, background, do_wait}
use gocudrv.Context.Lanes.{WaitLane}
use gocudrv.Context.State.{Store, put_context}
use gocudrv.Context.Run.{fresh_exec, new_executor}

-- What the job of `Close` finds: the errors of clearing, of the release, and of restoring.
pub record Released : Type 0 where
  pub clear_err : Option Err
  pub release_err : Option Err
  pub restore_err : Option Err

module _ {W : Type 0} (d : Driver W) where
  -- `Executor.Close` of an executor whose thread is clean (`false`) or retired (`true`). Its error is
  -- always nil. A closed executor stays as it is.
  abbrev pub end_thread : Bool → Exec → Store W → Store W
  end_thread retired x s =
      if x.is_closed
      then s
      else if retired
      then record s { quarantined = x.thread ∷ s.quarantined }
      else record s { reusable = x.thread ∷ s.reusable }

  -- `closeExecutor`: the thread is cleared, and retired if that fails.
  unfoldable pub close_executor : Exec → Store W → Option Err × Store W
  unfolding ctx_set_current do_wait join
  close_executor x s =
      let (r, w) = do_wait x background (ctx_set_current d 0) s.world in
      elim r [
        | ok _ ↦ (join (none ∷ none ∷ []), end_thread false x (record s { world = w }))
        | err e ↦ (join (some e ∷ none ∷ []), end_thread true x (record s { world = w }))
      ]

  -- The loop of `closeWaitLanes`, with the error joined so far.
  unfoldable pub close_lanes : Option Err → List WaitLane → Store W → Option Err × Store W
  unfolding close_executor join
  close_lanes e [] s = (e, s)
  close_lanes e (lane ∷ lanes) s =
      let (f, s') = close_executor lane.exec s in close_lanes (join (e ∷ f ∷ [])) lanes s'

  -- `closeWaitLanes`
  unfoldable pub close_wait_lanes : ℕ → Store W → Option Err × Store W
  unfolding close_lanes
  close_wait_lanes c s =
      close_lanes none (s.contexts c).wait_lanes
        (put_context c (record (s.contexts c) { wait_lanes = [] }) s)

  -- `closeCopyExecutor`
  unfoldable pub close_copy_executor : ℕ → Store W → Option Err × Store W
  unfolding close_executor
  close_copy_executor c s = elim (s.contexts c).copy_exec [
    | none ↦ (none, s)
    | some x ↦ close_executor x (put_context c (record (s.contexts c) { copy_exec = none }) s)
  ]

  -- `recoverCommandExecutor`: after a failed restore a new command executor is tried.
  unfoldable pub recover_command_executor : ℕ → Store W → Option Err × Store W
  unfolding new_executor
  recover_command_executor c s = elim (s.contexts c).command_err [
    | none ↦ (none, s)
    | some _ ↦
        (let (r, s') = new_executor d (s.contexts c) s in
          elim r [
            | ok x ↦ (
              none,
              put_context c (record (s.contexts c) { exec = some x; command_err = none }) s',
            )
            | err e ↦ (some e, put_context c (record (s.contexts c) { command_err = some e }) s')
          ])
  ]

  -- The job of `Close` on the command thread: the context is set current again if its release fails.
  unfoldable pub release_job : ℕ → ℕ → Cmd W Released
  unfolding ctx_set_current primary_ctx_release
  release_job device raw = do
    cleared ← try (ctx_set_current d 0)
    released ← try (primary_ctx_release d device)
    restored ← elim released [ none ↦ pure none | some _ ↦ try (ctx_set_current d raw) ]
    pure (record { clear_err = cleared; release_err = released; restore_err = restored })

  abbrev pub is_some : Option Err → Bool
  is_some none = false
  is_some (some _) = true

  -- The end of `Close`, after the job has run on the command executor `y`.
  unfoldable pub settle :
      ℕ → Exec → Option Err → Option Err → Released → Store W → Option Err × Store W
  unfolding join
  settle c y sync_err copy_err r s = elim r.release_err [
    | none ↦ (
      join (sync_err ∷ copy_err ∷ r.clear_err ∷ none ∷ []),
      end_thread (is_some r.clear_err) y (
          put_context c
            (record (s.contexts c) { closed = true; exec = some (record y { is_closed = true }) })
            s),
    )
    | some _ ↦ (
      join (sync_err ∷ copy_err ∷ r.clear_err ∷ r.release_err ∷ r.restore_err ∷ []),
      elim r.restore_err [
        | none ↦ s
        | some e ↦ end_thread true y (
            put_context c
              (record (s.contexts c) {
                command_err = some e;
                exec = some (record y { is_closed = true });
              })
              s)
      ],
    )
  ]

  -- What `Close` makes of the job, which may not have run at all.
  unfoldable pub finish_close :
      ℕ → Exec → Option Err → Option Err → Store W → Result Released × W → Option Err × Store W
  unfolding settle join
  finish_close c y sync_err copy_err s (err e, w) =
      (join (sync_err ∷ copy_err ∷ some e ∷ []), record s { world = w })
  finish_close c y sync_err copy_err s (ok r, w) =
      settle c y sync_err copy_err r (record s { world = w })

  -- `Close` from the wait lanes on, with the command executor `y`.
  unfoldable pub close_with : ℕ → Exec → Store W → Option Err × Store W
  unfolding close_wait_lanes close_copy_executor release_job finish_close do_wait
  close_with c y s =
      let (sync_err, s1) = close_wait_lanes c s in
      let (copy_err, s2) = close_copy_executor c s1 in
      finish_close c y sync_err copy_err s2
        (do_wait y background (release_job (s2.contexts c).device (s2.contexts c).raw) s2.world)

  unfoldable pub close_live : ℕ → Option Exec → Store W → Option Err × Store W
  unfolding close_with
  close_live c none s = (some (sentinel nil_context), s)
  close_live c (some y) s = close_with c y s

  -- `Close` after `recoverCommandExecutor`
  unfoldable pub close_recovered : ℕ → Option Err × Store W → Option Err × Store W
  unfolding close_live
  close_recovered c (some e, s) = (some e, s)
  close_recovered c (none, s) = close_live c (s.contexts c).exec s

  -- `Close` after its lock: nothing to do for a closed context; a lost command executor is replaced.
  unfoldable pub close : ℕ → Store W → Option Err × Store W
  unfolding recover_command_executor close_recovered
  close c s = elim (s.contexts c).exec [
    | none ↦ (some (sentinel nil_context), s)
    | some _ ↦
        if (s.contexts c).closed
        then (none, s)
        else close_recovered c (recover_command_executor c s)
  ]

  -- The rollback in the job of `Primary`: the retain is given back.
  abbrev pub give_back : ℕ → ℕ → Err → Cmd W ℕ
  give_back device raw e = do
    released ← try (primary_ctx_release d device)
    elim (join (some e ∷ released ∷ [])) [ none ↦ pure raw | some j ↦ fail j ]

  -- The job of `Primary`: the context is released again if it cannot be made current.
  unfoldable pub retain_job : ℕ → Cmd W ℕ
  unfolding primary_ctx_retain ctx_set_current primary_ctx_release join
  retain_job device = do
    raw ← primary_ctx_retain d device
    bound ← try (ctx_set_current d raw)
    elim bound [ none ↦ pure raw | some e ↦ give_back device raw e ]

  -- `Primary` on an existing device: the new Context goes to the place `c`. A failure closes the
  -- executor, whose thread is not retired.
  unfoldable pub primary : ℕ → ℕ → Store W → Option Err × Store W
  unfolding retain_job do_wait
  primary device c s =
      let x = fresh_exec d s in
      let (r, w) = do_wait x background (retain_job device) s.world in
      let s' = record s { next_thread = suc s.next_thread; world = w } in
      elim r [
        | err e ↦ (some e, end_thread false x s')
        | ok raw ↦ (
          none,
          put_context c
              (record {
                device = device;
                raw = raw;
                exec = some x;
                copy_exec = none;
                wait_lanes = [];
                sync_active = 0;
                command_err = none;
                closed = false;
              })
              s',
        )
      ]
