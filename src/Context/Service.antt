-- ===== src/Context/Service.antt =====
-- What a Context does with commands, from `Primary` to `Close`.
use gocudrv.Base.{ℕ, ◌≡◌, Bool, true, false, none, some, arith, ◌==◌, subst, Option-cases, inl, inr}
use gocudrv.Driver.Errors.{err, sentinel, context_closed}
use gocudrv.Driver.{Driver, Cmd}
use gocudrv.Context.Exec.{Exec, GoContext, background, do_wait, do_ctx}
use gocudrv.Context.State.{Context, Store, in_world}
use gocudrv.Context.Run.{do_with, do_job, do_copy, submit_with}
use gocudrv.Context.Close.{close, primary}
use gocudrv.Context.Lifecycle.{sound, close-sound, close_closes}
use gocudrv.Context.Sync.{do_job_ctx}

module _ {W : Type 0} (d : Driver W) where
  refused :
      {A : Type 0} (c : ℕ) (y : Exec) (g : GoContext) (job : Cmd W A) (wait barrier : Bool)
      (s : Store W)
      → (s.contexts c).exec ≡ some y
      → (s.contexts c).closed ≡ true
      → (do_with d c g job wait barrier s ≡ (err (sentinel context_closed), s))
        × (do_job d c g job s ≡ (err (sentinel context_closed), s))
        × (do_copy d c g job s ≡ (err (sentinel context_closed), s))
        × (do_job_ctx d c g job s ≡ (err (sentinel context_closed), s))
        × (close d c s ≡ (none, s))
  unfolding do_with do_job do_copy do_job_ctx close
  refused c y g job wait barrier s e f =
      (ground arith, ground arith, ground arith, ground arith, ground arith)

  has_exec : (x : Context) → sound x ≡ true → (y : Exec) × (x.exec ≡ some y)
  has_exec x h = elim (Option-cases x.exec) [ inl e ↦ absurd cc | inr (y, e) ↦ (y, e) ]

  -- After a `Close` that returns nil, of a Context with a command executor that is open unless its loss is
  -- recorded, whatever the driver answered, the Context runs nothing: commands of the command executor,
  -- with or without a barrier, commands of the copy executor and waits return `ErrContextClosed`,
  -- also with a canceled Go context, and another `Close` returns nil, all without a change of the store.
  pub closed_refuses :
      {A : Type 0} (c : ℕ) (g : GoContext) (job : Cmd W A) (wait barrier : Bool) (s s' : Store W)
      → sound (s.contexts c) ≡ true
      → close d c s ≡ (none, s')
      → (do_with d c g job wait barrier s' ≡ (err (sentinel context_closed), s'))
        × (do_job d c g job s' ≡ (err (sentinel context_closed), s'))
        × (do_copy d c g job s' ≡ (err (sentinel context_closed), s'))
        × (do_job_ctx d c g job s' ≡ (err (sentinel context_closed), s'))
        × (close d c s' ≡ (none, s'))
  closed_refuses c g job wait barrier s s' h e =
      let after : sound (s'.contexts c) ≡ true =
        subst (λ x. sound (x.1.contexts c) ≡ true) e (close-sound d c s h) in
      let (y, f) = has_exec (s'.contexts c) after in
      refused c y g job wait barrier s' f (close_closes d c s s' h e).0

  -- If `Primary` returns nil, the new Context is open, and its command executor as well.
  primary-sound :
      (device c : ℕ) (s s' : Store W)
      → primary d device c s ≡ (none, s')
      → (sound (s'.contexts c) ≡ true) × ((s'.contexts c).closed ≡ false)
  unfolding primary
  primary-sound device c s s' e = let self : (c == c) ≡ true = ground arith in ground arith

  -- An open Context whose command executor is not lost runs a command that is given without a
  -- cancellable context: the job runs once, on the command thread, and its result is the result, both
  -- for commands that return early on cancellation and for those that wait.
  live_runs :
      {A : Type 0} (c : ℕ) (y : Exec) (job : Cmd W A) (wait : Bool) (s : Store W)
      → sound (s.contexts c) ≡ true
      → (s.contexts c).closed ≡ false
      → (s.contexts c).command_err ≡ none
      → (s.contexts c).exec ≡ some y
      → (do_with d c background job wait false s ≡ in_world (job y.thread) s)
        × (do_job d c background job s ≡ in_world (job y.thread) s)
  unfolding do_with do_job submit_with do_wait do_ctx
  live_runs c y job true s h o l e = (ground arith, ground arith)
  live_runs c y job false s h o l e = (ground arith, ground arith)
