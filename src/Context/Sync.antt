-- ===== src/Context/Sync.antt =====
-- cuda/context.go: waiting on a wait lane, and the queries of a Context. The job of a
-- canceled wait is recycled by the worker when the driver call ends: that is a later step of its own, and until
-- then the lane is busy. The waits of several callers at once are the subject of Context/Lanes.
use gocudrv.Base.{
  ℕ, suc, ◌-◌, Option, none, some, List, [], ◌∷◌, ◌++◌, length, get_elem?, ℤ, if◌then◌else◌,
}
use gocudrv.Driver.Errors.{sentinel, nil_context, Result, ok, err}
use gocudrv.Driver.{Driver, Cmd}
use gocudrv.Driver.Calls.{mem_get_info}
use gocudrv.Driver.Work.{ctx_synchronize, ctx_stream_priority_range}
use gocudrv.Context.Exec.{Exec, GoContext, background, do_ctx, abandoned}
use gocudrv.Context.Lanes.{WaitLane, reuse_wait_lane, release_wait_lane}
use gocudrv.Context.State.{Store, M, put_context, in_world}
use gocudrv.Context.Run.{new_executor, guards, do_plain}

module _ {W : Type 0} (d : Driver W) where
  abbrev pub with_lanes : ℕ → List WaitLane → Store W → Store W
  with_lanes c lanes s = put_context c (record (s.contexts c) { wait_lanes = lanes }) s

  -- The new lane of `acquireWaitLane`, if its executor could be made.
  unfoldable pub append_lane : ℕ → List WaitLane → Result Exec × Store W → Result ℕ × Store W
  append_lane c lanes (ok x, s) =
      (ok (length lanes), with_lanes c (lanes ++ record { exec = x; pending = 1 } ∷ []) s)
  append_lane c lanes (err e, s) = (err e, s)

  unfoldable pub take_or_make : ℕ → Store W → Option ℕ × List WaitLane → Result ℕ × Store W
  unfolding append_lane new_executor
  take_or_make c s (some i, lanes) = (ok i, with_lanes c lanes s)
  take_or_make c s (none, lanes) = append_lane c lanes (new_executor d (s.contexts c) s)

  -- `acquireWaitLane`, with the place of the lane; nothing happens between its two looks for a lane.
  unfoldable pub acquire_wait_lane : ℕ → M W ℕ
  unfolding take_or_make reuse_wait_lane
  acquire_wait_lane c s = take_or_make c s (reuse_wait_lane (s.contexts c).wait_lanes)

  -- `c.syncActive.Add(1)`, and `Recycle` of `trackedSyncJob`, which the executor calls when it has run or
  -- refused the job
  abbrev pub track : ℕ → Store W → Store W
  track c s =
      put_context c (record (s.contexts c) { sync_active = suc (s.contexts c).sync_active }) s

  abbrev pub recycle : ℕ → ℕ → Store W → Store W
  recycle c i s =
      put_context c
        (record (s.contexts c) {
          wait_lanes = release_wait_lane i (s.contexts c).wait_lanes;
          sync_active = (s.contexts c).sync_active - 1;
        })
        s

  module _ {A : Type 0} where
    -- The submission to the lane at a place. The place is that of a lane; the source holds the lane itself.
    unfoldable pub submit_tracked :
        ℕ → ℕ → GoContext → Cmd W A → Store W → Option WaitLane → Result A × Store W
    unfolding do_ctx
    submit_tracked c i g job s none = (err (sentinel nil_context), s)
    submit_tracked c i g job s (some lane) =
        let (r, s') = in_world (do_ctx lane.exec g job) (track c s) in
        (r, if abandoned lane.exec g then s' else recycle c i s')

    unfoldable pub run_tracked : ℕ → GoContext → Cmd W A → Result ℕ × Store W → Result A × Store W
    unfolding submit_tracked
    run_tracked c g job (ok i, s) =
        submit_tracked c i g job s (get_elem? (s.contexts c).wait_lanes i)
    run_tracked c g job (err e, s) = (err e, s)

    -- `doJobCtx`
    unfoldable pub do_job_ctx : ℕ → GoContext → Cmd W A → M W A
    unfolding acquire_wait_lane run_tracked
    do_job_ctx c g job s = elim (guards d (s.contexts c) g) [
      | some e ↦ (err e, s)
      | none ↦ run_tracked c g job (acquire_wait_lane c s)
    ]

  -- `Synchronize`
  unfoldable pub synchronize : ℕ → GoContext → M W (Unit {0})
  unfolding do_job_ctx
  synchronize c g = do_job_ctx c g (ctx_synchronize d)

  -- `MemInfo`: free, then total
  unfoldable pub mem_info : ℕ → M W (ℕ × ℕ)
  mem_info c = do_plain d c background (mem_get_info d)

  -- `StreamPriorityRange`: least, then greatest
  unfoldable pub stream_priority_range : ℕ → M W (ℤ × ℤ)
  stream_priority_range c = do_plain d c background (ctx_stream_priority_range d)
