-- ===== src/Context/Lifecycle.antt =====
-- A Context from `Primary` to `Close`.
pub mod Steps
use gocudrv.Base.{
  ℕ, ◌≡◌, refl, ◌∙◌, ap, Bool, true, false, not, Option, none, some, List, [], ◌∷◌, arith, ◌==◌,
  if◌then◌else◌,
}
use gocudrv.Driver.Errors.{Err, Result, ok, err, join}
use gocudrv.Driver.{Driver}
use gocudrv.Context.Exec.{Exec, background, do_wait}
use gocudrv.Context.Lanes.{WaitLane}
use gocudrv.Context.State.{Context, Store, put_context}
use gocudrv.Context.Run.{new_executor}
use gocudrv.Context.Close.{
  close, close_executor, close_lanes, close_wait_lanes, close_copy_executor, close_with,
  finish_close, close_live, close_recovered, settle, recover_command_executor, Released,
  release_job, end_thread,
}
use Steps.{new_executor-contexts, new_executor-open, bare, emptied}

-- No lane and no copy thread is left.
abbrev pub stripped : Context → Bool
stripped x = elim x.wait_lanes [
  | [] ↦ elim x.copy_exec [ none ↦ true | some _ ↦ false ]
  | _ ∷ _ ↦ false
]

-- A Context that `Primary` returned: it has a command executor, which is open unless the Context is
-- closed or has recorded the loss of it; a closed Context has no other threads.
abbrev pub sound : Context → Bool
sound x = elim x.exec [
  | none ↦ false
  | some y ↦
      if x.closed
      then stripped x
      else (elim x.command_err [ none ↦ not y.is_closed | some _ ↦ true ])
]

module _ {W : Type 0} (d : Driver W) where
  -- The Context as `close_with` settles it.
  settle_lem :
      (c : ℕ) (y : Exec) (e f : Option Err) (r : Released) (s : Store W)
      → sound (s.contexts c) ≡ true
      → (s.contexts c).closed ≡ false
      → stripped (s.contexts c) ≡ true
      → (s.contexts c).exec ≡ some y
      → sound ((settle d c y e f r s).1.contexts c) ≡ true
  unfolding settle
  settle_lem c y e f r s h o t x = let self : (c == c) ≡ true = ground arith in ground arith

  settle-none :
      (c : ℕ) (y : Exec) (e f : Option Err) (r : Released) (s s' : Store W)
      → stripped (s.contexts c) ≡ true
      → settle d c y e f r s ≡ (none, s')
      → ((s'.contexts c).closed ≡ true) × (stripped (s'.contexts c) ≡ true)
  unfolding settle
  settle-none c y e f r s s' t x = let self : (c == c) ≡ true = ground arith in ground (arith, join)

  abbrev job_result : ℕ → Exec → Store W → Result Released × W
  job_result c y s =
      do_wait y background (release_job d (s.contexts c).device (s.contexts c).raw) s.world

  finish_close-sound :
      (c : ℕ) (y : Exec) (e f : Option Err) (s : Store W) (r : Result Released × W)
      → sound (s.contexts c) ≡ true
      → (s.contexts c).closed ≡ false
      → stripped (s.contexts c) ≡ true
      → (s.contexts c).exec ≡ some y
      → sound ((finish_close d c y e f s r).1.contexts c) ≡ true
  unfolding finish_close
  finish_close-sound c y e f s (err x, w) h o t p = h
  finish_close-sound c y e f s (ok r, w) h o t p =
      settle_lem c y e f r (record s { world = w }) h o t p

  finish_close-none :
      (c : ℕ) (y : Exec) (e f : Option Err) (s s' : Store W) (r : Result Released × W)
      → stripped (s.contexts c) ≡ true
      → finish_close d c y e f s r ≡ (none, s')
      → ((s'.contexts c).closed ≡ true) × (stripped (s'.contexts c) ≡ true)
  unfolding finish_close join
  finish_close-none c y e f s s' (err x, w) t h = ground arith
  finish_close-none c y e f s s' (ok r, w) t h =
      settle-none c y e f r (record s { world = w }) s' t h

  close_with-sound :
      (c : ℕ) (y : Exec) (s : Store W)
      → sound (s.contexts c) ≡ true
      → (s.contexts c).closed ≡ false
      → (s.contexts c).exec ≡ some y
      → sound ((close_with d c y s).1.contexts c) ≡ true
  unfolding close_with
  close_with-sound c y s h o x =
      let e = emptied d c s in
      finish_close-sound c y _ _ (bare d c s) (job_result c y (bare d c s)) (ground arith)
        (ground arith) (ground arith) (ground arith)

  close_with-none :
      (c : ℕ) (y : Exec) (s s' : Store W)
      → close_with d c y s ≡ (none, s')
      → ((s'.contexts c).closed ≡ true) × (stripped (s'.contexts c) ≡ true)
  unfolding close_with
  close_with-none c y s s' h =
      let e = emptied d c s in
      finish_close-none c y _ _ (bare d c s) s' (job_result c y (bare d c s)) (ground arith) h

  -- A recovered Context is sound, and so is one whose recovery failed.
  recover-sound :
      (c : ℕ) (s : Store W)
      → sound (s.contexts c) ≡ true
      → sound ((recover_command_executor d c s).1.contexts c) ≡ true
  unfolding recover_command_executor
  recover-sound c s h =
      let self : (c == c) ≡ true = ground arith in
      let e = new_executor-contexts d (s.contexts c) s in
      let f = new_executor-open d (s.contexts c) in ground arith

  recover-lost :
      (c : ℕ) (s : Store W)
      → ((recover_command_executor d c s).1.contexts c).closed ≡ (s.contexts c).closed
  unfolding recover_command_executor
  recover-lost c s =
      let self : (c == c) ≡ true = ground arith in
      let e = new_executor-contexts d (s.contexts c) s in ground arith

  close_live-sound :
      (c : ℕ) (o : Option Exec) (s : Store W)
      → sound (s.contexts c) ≡ true
      → (s.contexts c).closed ≡ false
      → (s.contexts c).exec ≡ o
      → sound ((close_live d c o s).1.contexts c) ≡ true
  unfolding close_live
  close_live-sound c none s h p e = h
  close_live-sound c (some y) s h p e = close_with-sound c y s h p e

  close_live-none :
      (c : ℕ) (o : Option Exec) (s s' : Store W)
      → close_live d c o s ≡ (none, s')
      → ((s'.contexts c).closed ≡ true) × (stripped (s'.contexts c) ≡ true)
  unfolding close_live
  close_live-none c none s s' h = ground arith
  close_live-none c (some y) s s' h = close_with-none c y s s' h

  close_recovered-sound :
      (c : ℕ) (p : Option Err × Store W)
      → sound (p.1.contexts c) ≡ true
      → (p.1.contexts c).closed ≡ false
      → sound ((close_recovered d c p).1.contexts c) ≡ true
  unfolding close_recovered
  close_recovered-sound c (some e, s) h o = h
  close_recovered-sound c (none, s) h o = close_live-sound c (s.contexts c).exec s h o refl

  close_recovered-none :
      (c : ℕ) (p : Option Err × Store W) (s' : Store W)
      → close_recovered d c p ≡ (none, s')
      → ((s'.contexts c).closed ≡ true) × (stripped (s'.contexts c) ≡ true)
  unfolding close_recovered
  close_recovered-none c (some e, s) s' h = ground arith
  close_recovered-none c (none, s) s' h = close_live-none c (s.contexts c).exec s s' h

  -- `Close` of a Context keeps it usable or closed: if the Context has a command executor, open unless
  -- its loss is recorded, then this holds after `Close` as well, whatever the driver does; and if the
  -- Context is closed then, it has no copy executor and no wait lane left.
  pub close-sound :
      (c : ℕ) (s : Store W)
      → sound (s.contexts c) ≡ true
      → sound ((close d c s).1.contexts c) ≡ true
  unfolding close
  close-sound c s h =
      let e = recover-sound c s h in
      let f = recover-lost c s in
      let g : (s.contexts c).closed ≡ false
          → sound ((close_recovered d c (recover_command_executor d c s)).1.contexts c) ≡ true =
        (λ o. close_recovered-sound c (recover_command_executor d c s) e (f ∙ o)) in
      ground arith

  -- If a Context has a command executor, and is either closed with no copy executor and no wait lane left, or
  -- open with its command executor open or its loss recorded, and `Close` of it returns nil, then the
  -- Context is closed, and no copy executor and no wait lane is left in it.
  pub close_closes :
      (c : ℕ) (s s' : Store W)
      → sound (s.contexts c) ≡ true
      → close d c s ≡ (none, s')
      → ((s'.contexts c).closed ≡ true) × (stripped (s'.contexts c) ≡ true)
  unfolding close
  close_closes c s s' h e =
      let f = close_recovered-none c (recover_command_executor d c s) s' in ground arith
