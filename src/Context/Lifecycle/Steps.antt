-- ===== src/Context/Lifecycle/Steps.antt =====
-- cuda/context.go: what the steps of `Close` leave of the Contexts.
use gocudrv.Base.{
  ℕ, ◌≡◌, refl, ◌∙◌, ap, Bool, true, false, Option, none, List, [], ◌∷◌, arith, ◌==◌,
}
use gocudrv.Driver.Errors.{Err, ok, join}
use gocudrv.Driver.{Driver}
use gocudrv.Context.Exec.{Exec, do_wait}
use gocudrv.Context.Lanes.{WaitLane}
use gocudrv.Context.State.{Context, Store, put_context}
use gocudrv.Context.Run.{new_executor}
use gocudrv.Context.Close.{
  close_executor, close_lanes, close_wait_lanes, close_copy_executor, end_thread,
}

module _ {W : Type 0} (d : Driver W) where
  end_thread-contexts :
      (r : Bool) (x : Exec) (s : Store W) → (end_thread d r x s).contexts ≡ s.contexts
  end_thread-contexts r x s = ground arith

  close_executor-contexts :
      (x : Exec) (s : Store W) → (close_executor d x s).1.contexts ≡ s.contexts
  unfolding close_executor do_wait
  close_executor-contexts x s = ground arith

  close_lanes-contexts :
      (e : Option Err) (lanes : List WaitLane) (s : Store W)
      → (close_lanes d e lanes s).1.contexts ≡ s.contexts
  unfolding close_lanes
  close_lanes-contexts e [] s = refl
  close_lanes-contexts e (lane ∷ lanes) s =
      let f = close_executor-contexts lane.exec s in
      close_lanes-contexts (join (e ∷ (close_executor d lane.exec s).0 ∷ [])) lanes
        (close_executor d lane.exec s).1
      ∙ f

  close_wait_lanes-contexts :
      (c : ℕ) (s : Store W)
      → (close_wait_lanes d c s).1.contexts
        ≡ (put_context c (record (s.contexts c) { wait_lanes = [] }) s).contexts
  unfolding close_wait_lanes
  close_wait_lanes-contexts c s =
      close_lanes-contexts none (s.contexts c).wait_lanes
        (put_context c (record (s.contexts c) { wait_lanes = [] }) s)

  abbrev without_copy : Context → Context
  without_copy x = record x { copy_exec = none }

  abbrev dropped : ℕ → Store W → Store W
  dropped c s = put_context c (record (s.contexts c) { copy_exec = none }) s

  close_copy_executor-contexts :
      (c : ℕ) (s : Store W)
      → (close_copy_executor d c s).1.contexts c ≡ record (s.contexts c) { copy_exec = none }
  unfolding close_copy_executor
  close_copy_executor-contexts c s =
      let f : (x : Exec)
          → (close_executor d x (dropped c s)).1.contexts c ≡ (dropped c s).contexts c =
        (λ x. ap (λ k. k c) (close_executor-contexts x (dropped c s))) in
      let self : (c == c) ≡ true = ground arith in ground arith

  pub new_executor-contexts :
      (x : Context) (s : Store W) → (new_executor d x s).1.contexts ≡ s.contexts
  unfolding new_executor do_wait
  new_executor-contexts x s = ground arith

  pub new_executor-open :
      (x : Context) (y : Exec) (s s' : Store W)
      → new_executor d x s ≡ (ok y, s')
      → y.is_closed ≡ false
  unfolding new_executor do_wait
  new_executor-open x y s s' e = ground arith

  -- The Context after its lanes and its copy executor are closed.
  abbrev pub bare : ℕ → Store W → Store W
  bare c s = (close_copy_executor d c (close_wait_lanes d c s).1).1

  pub emptied :
      (c : ℕ) (s : Store W)
      → (bare c s).contexts c ≡ record (s.contexts c) { wait_lanes = []; copy_exec = none }
  emptied c s =
      let self : (c == c) ≡ true = ground arith in
      let e : (close_wait_lanes d c s).1.contexts c ≡ record (s.contexts c) { wait_lanes = [] } =
        ap (λ k. k c) (close_wait_lanes-contexts c s) ∙ ground arith in
      close_copy_executor-contexts c (close_wait_lanes d c s).1 ∙ ap without_copy e
