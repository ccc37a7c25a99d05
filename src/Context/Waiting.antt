-- ===== src/Context/Waiting.antt =====
-- What a wait leaves behind in its Context.
use gocudrv.Base.{
  ℕ, zero, suc, ◌+◌, ◌≤◌, ◌<◌, ◌≡◌, ◌≢◌, refl, Bool, Option, true, false, sym, subst, true, none,
  some, List, [], ◌∷◌, arith, length, get_elem?, ◌==◌, if◌then◌else◌, length-append, Option-cases,
  Bool-cases, inl, inr, ◌⊎◌,
}
use gocudrv.Driver.Errors.{Err, Result, ok, err}
use gocudrv.Driver.{Driver, Cmd}
use gocudrv.Context.Exec.{Exec, GoContext, abandoned}
use gocudrv.Context.Lanes.{WaitLane, reuse_wait_lane, chosen_lane}
use gocudrv.Context.Lanes.Choice.{pending_at, chosen_lane-lt, chosen_lane_short}
use gocudrv.Context.Lanes.Bound.{
  length-claim, length-release, pending_at-claim, pending_at-release, pending_at-append,
}
use gocudrv.Context.State.{Store}
use gocudrv.Context.Run.{new_executor, guards}
use gocudrv.Context.Lifecycle.Steps.{new_executor-contexts}
use gocudrv.Context.Sync.{
  append_lane, take_or_make, acquire_wait_lane, submit_tracked, run_tracked, do_job_ctx, recycle,
  track,
}

module _ {W : Type 0} (d : Driver W) (c : ℕ) where
  abbrev lanes_of : Store W → List WaitLane
  lanes_of s = (s.contexts c).wait_lanes

  -- The lane at `i` was taken: it is there, and one more waits on it than before.
  abbrev Taken : ℕ → ℕ → Store W → Store W → Type 0
  Taken j i s s' =
      (i < length (lanes_of s'))
      × (length (lanes_of s') ≤ 8)
      × (pending_at (lanes_of s') j ≡ (if i == j then 1 else 0) + pending_at (lanes_of s) j)
      × ((s'.contexts c).sync_active ≡ (s.contexts c).sync_active)

  append_lane-Taken :
      (j i : ℕ) (lanes : List WaitLane) (p : Result Exec × Store W) (s s' : Store W)
      → p.1.contexts ≡ s.contexts
      → lanes_of s ≡ lanes
      → length lanes < 8
      → append_lane d c lanes p ≡ (ok i, s')
      → Taken j i s s'
  unfolding append_lane
  append_lane-Taken j i lanes (ok x, t) s s' h m l e =
      let self : (c == c) ≡ true = ground arith in
      let lane : WaitLane = record { exec = x; pending = 1 } in
      let a = pending_at-append lanes lane j in
      let b = length-append lanes (lane ∷ []) in ground arith
  append_lane-Taken j i lanes (err x, t) s s' h m l e = ground arith

  acquire-Taken :
      (j i : ℕ) (s s' : Store W)
      → acquire_wait_lane d c s ≡ (ok i, s')
      → length (lanes_of s) ≤ 8
      → Taken j i s s'
  unfolding acquire_wait_lane take_or_make reuse_wait_lane
  acquire-Taken j i s s' e l = elim (Option-cases (chosen_lane (lanes_of s))) [
    | inl n ↦
        (let f = chosen_lane_short (lanes_of s) n in
          append_lane-Taken j i (lanes_of s) (new_executor d (s.contexts c) s) s s'
            (new_executor-contexts d (s.contexts c) s) refl f (ground arith))
    | inr (k, q) ↦
        (let self : (c == c) ≡ true = ground arith in
          let f = chosen_lane-lt (lanes_of s) k q in
          let g = length-claim k (lanes_of s) in
          let h = pending_at-claim k j (lanes_of s) f in ground arith)
  ]

  append_lane-failed :
      (lanes : List WaitLane) (p : Result Exec × Store W) (x : Err) (s' : Store W)
      → append_lane d c lanes p ≡ (err x, s')
      → s'.contexts ≡ p.1.contexts
  unfolding append_lane
  append_lane-failed lanes (ok y, t) x s' e = ground arith
  append_lane-failed lanes (err y, t) x s' e = ground arith

  acquire-failed :
      (x : Err) (s s' : Store W) → acquire_wait_lane d c s ≡ (err x, s') → s'.contexts ≡ s.contexts
  unfolding acquire_wait_lane take_or_make reuse_wait_lane
  acquire-failed x s s' e =
      let f = append_lane-failed (lanes_of s) (new_executor d (s.contexts c) s) x s' in
      let g = new_executor-contexts d (s.contexts c) s in ground arith

  get_elem?-none : (lanes : List WaitLane) (i : ℕ) → i < length lanes → get_elem? lanes i ≢ none
  get_elem?-none [] i h = absurd (omega arith)
  get_elem?-none (lane ∷ lanes) zero h = ground arith
  get_elem?-none (lane ∷ lanes) (suc i) h = get_elem?-none lanes i (omega arith)

  -- Nobody waits that did not wait before, and no wait of before is forgotten.
  abbrev pub Balanced : ℕ → Store W → Store W → Type 0
  Balanced j s s' =
      (pending_at (lanes_of s') j ≡ pending_at (lanes_of s) j)
      × ((s'.contexts c).sync_active ≡ (s.contexts c).sync_active)
      × (length (lanes_of s') ≤ 8)

  -- One more waits on lane `i` than before, and nobody else.
  abbrev pub Busy : ℕ → ℕ → Store W → Store W → Type 0
  Busy i j s s' =
      (pending_at (lanes_of s') j ≡ (if i == j then 1 else 0) + pending_at (lanes_of s) j)
      × ((s'.contexts c).sync_active ≡ suc (s.contexts c).sync_active)
      × (length (lanes_of s') ≤ 8)

  -- The place of the lane that a wait gets.
  abbrev place_of : Result ℕ → ℕ
  place_of (ok i) = i
  place_of (err _) = 0

  abbrev pub place : Store W → ℕ
  place s = place_of (acquire_wait_lane d c s).0

  -- Whether the caller gives up a wait whose job an executor has accepted: the lane that it got is open, and
  -- the Go context is canceled after the submission.
  abbrev late : GoContext → Option WaitLane → Bool
  late g none = false
  late g (some lane) = abandoned lane.exec g

  abbrev given_up : GoContext → Result ℕ × Store W → Bool
  given_up g (ok i, t) = late g (get_elem? (lanes_of t) i)
  given_up g (err _, t) = false

  -- The same, given the error of the guards.
  abbrev late_after : GoContext → Store W → Option Err → Bool
  late_after g s none = given_up g (acquire_wait_lane d c s)
  late_after g s (some _) = false

  abbrev pub leaves_job : GoContext → Store W → Bool
  leaves_job g s = late_after g s (guards d (s.contexts c) g)

  -- After a wait that is over; or after one whose job the worker has yet to recycle.
  abbrev pub Waited : Bool → ℕ → ℕ → Store W → Store W → Type 0
  Waited later i j s s' =
      ((later ≡ false) × Balanced j s s')
      ⊎ ((later ≡ true) × Busy i j s s' × Balanced j s (recycle d c i s'))

  recycle-Balanced :
      (j i : ℕ) (s t : Store W) → Taken j i s t → Balanced j s (recycle d c i (track d c t))
  recycle-Balanced j i s t h =
      let self : (c == c) ≡ true = ground arith in
      let f = pending_at-release i j (lanes_of t) in
      let k = length-release i (lanes_of t) in ground arith

  track-Busy : (j i : ℕ) (s t : Store W) → Taken j i s t → Busy i j s (track d c t)
  track-Busy j i s t h = let self : (c == c) ≡ true = ground arith in ground arith

  submit_tracked-Waited :
      {A : Type 0} (j i : ℕ) (g : GoContext) (job : Cmd W A) (o : Option WaitLane) (s t : Store W)
      → Taken j i s t
      → o ≢ none
      → Waited (late g o) i j s (submit_tracked d c i g job t o).1
  unfolding submit_tracked
  submit_tracked-Waited j i g job none s t h n = absurd (n refl)
  submit_tracked-Waited j i g job (some lane) s t h n = elim (Bool-cases (abandoned lane.exec g)) [
    | inl e ↦ rw e (inr (refl, track-Busy j i s t h, recycle-Balanced j i s t h))
    | inr e ↦ rw e (inl (refl, recycle-Balanced j i s t h))
  ]

  run_tracked-Waited :
      {A : Type 0} (j : ℕ) (g : GoContext) (job : Cmd W A) (p : Result ℕ × Store W) (s : Store W)
      → acquire_wait_lane d c s ≡ p
      → length (lanes_of s) ≤ 8
      → Waited (given_up g p) (place_of p.0) j s (run_tracked d c g job p).1
  unfolding run_tracked
  run_tracked-Waited j g job (ok i, t) s e l =
      let h = acquire-Taken j i s t e l in
      submit_tracked-Waited j i g job (get_elem? (lanes_of t) i) s t h
        (get_elem?-none (lanes_of t) i h.0)
  run_tracked-Waited j g job (err x, t) s e l =
      let f = acquire-failed x s t e in inl (refl, ground arith)

  guarded :
      {A : Type 0} (g : GoContext) (job : Cmd W A) (x : Err) (s : Store W)
      → guards d (s.contexts c) g ≡ some x
      → do_job_ctx d c g job s ≡ (err x, s)
  unfolding do_job_ctx
  guarded g job x s e = ground arith

  admitted :
      {A : Type 0} (g : GoContext) (job : Cmd W A) (s : Store W)
      → guards d (s.contexts c) g ≡ none
      → do_job_ctx d c g job s ≡ run_tracked d c g job (acquire_wait_lane d c s)
  unfolding do_job_ctx
  admitted g job s e = ground arith

  -- A wait, whether it succeeds, is refused or fails, leaves the pending count of every lane and the count of
  -- active waits as they were, and at most eight lanes, if there were at most eight before. Exactly if its Go
  -- context is canceled after the job was accepted, it leaves one more on both: its lane stays busy
  -- until the worker recycles the job, and then the counts are as they were.
  pub do_job_ctx-Balanced :
      {A : Type 0} (j : ℕ) (g : GoContext) (job : Cmd W A) (s : Store W)
      → length (lanes_of s) ≤ 8
      → Waited (leaves_job g s) (place s) j s (do_job_ctx d c g job s).1
  do_job_ctx-Balanced j g job s l = elim (Option-cases (guards d (s.contexts c) g)) [
    | inl e ↦
        subst (λ p. Waited (leaves_job g s) (place s) j s p.1) (sym (admitted g job s e))
          (subst
            (λ o.
              Waited (late_after g s o) (place s) j s
                (run_tracked d c g job (acquire_wait_lane d c s)).1)
            (sym e) (run_tracked-Waited j g job (acquire_wait_lane d c s) s refl l))
    | inr (x, e) ↦
        subst (λ p. Waited (leaves_job g s) (place s) j s p.1) (sym (guarded g job x s e))
          (subst (λ o. Waited (late_after g s o) (place s) j s s) (sym e)
            (inl (refl, (refl, refl, l))))
  ]
