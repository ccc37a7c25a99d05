-- ===== src/Vmm/Release.antt =====
-- A virtual buffer whose close has returned nil.
use gocudrv.Base.{ℕ, ◌≡◌, Bool, true, false, ◌||◌, Option, none, some, List, [], ◌∷◌, arith}
use gocudrv.Driver.Errors.{Err, Result, ok, err, sentinel, buffer_closed, join}
use gocudrv.Driver.{Driver, Cmd}
use gocudrv.Context.Exec.{Exec, GoContext, background, do_wait}
use gocudrv.Context.State.{Store}
use gocudrv.Context.Run.{do_with, do_barrier, submit_with}
use gocudrv.Buffer.{Slice}
use gocudrv.Vmm.{VirtualBuffer, try_free, tear_down, after_tear_down, close, copy_from, copy_to}

abbrev thread_of : Option Exec → ℕ
thread_of none = 0
thread_of (some x) = x.thread

-- Something is held for the buffer.
abbrev pub live : VirtualBuffer → Bool
live b = b.mapped || (b.created || b.reserved)

module _ {W : Type 0} (d : Driver W) where
  -- A command that succeeded ran on the command thread.
  do_barrier-ran :
      {A : Type 0} (c : ℕ) (job : Cmd W A) (a : A) (s s' : Store W)
      → do_barrier d c background job s ≡ (ok a, s')
      → job (thread_of (s.contexts c).exec) s.world ≡ (ok a, s'.world)
  unfolding do_with submit_with do_wait
  do_barrier-ran c job a s s' e = ground arith

  tear_down-released :
      (b b' : VirtualBuffer) (t : ℕ) (w w' : W)
      → tear_down d b t w ≡ (ok (b', []), w')
      → live b' ≡ false
  unfolding tear_down try_free
  tear_down-released b b' t w w' e = ground arith

  after_tear_down-lem :
      (b b' : VirtualBuffer) (r : Result (VirtualBuffer × List Err) × Store W) (s' : Store W)
      → after_tear_down d b r ≡ (none, some b', s')
      → (x : VirtualBuffer) × (r ≡ (ok (x, []), s')) × (b' ≡ record x { closed = true })
  unfolding after_tear_down join
  after_tear_down-lem b b' (ok (x, []), s) s' e = (x, ground arith, ground arith)
  after_tear_down-lem b b' (ok (x, y ∷ ys), s) s' e = ground arith
  after_tear_down-lem b b' (err x, s) s' e = ground arith

  -- If `Close` of an open virtual buffer returns nil, nothing is held for the buffer any more: it is
  -- neither mapped nor reserved nor allocated, by its flags; and it is closed, so that another `Close`
  -- returns nil and copies return `ErrBufferClosed`, all without a change of the store.
  pub close_releases :
      (b b' : VirtualBuffer) (g : GoContext) (x : Slice) (s s' : Store W)
      → b.closed ≡ false
      → close d (some b) s ≡ (none, some b', s')
      → (live b' ≡ false)
        × (close d (some b') s' ≡ (none, some b', s'))
        × (copy_from d g (some b') x s' ≡ (err (sentinel buffer_closed), s'))
        × (copy_to d g (some b') x s' ≡ (err (sentinel buffer_closed), s'))
  unfolding close copy_from copy_to
  close_releases b b' g x s s' o e =
      let f : after_tear_down d b (do_barrier d b.ctx background (tear_down d b) s)
          ≡ (none, some b', s') =
        ground arith in
      let (y, p, q) =
        after_tear_down-lem b b' (do_barrier d b.ctx background (tear_down d b) s) s' f in
      let r = do_barrier-ran b.ctx (tear_down d b) (y, []) s s' p in
      let u = tear_down-released b y (thread_of (s.contexts b.ctx).exec) s.world s'.world r in
      let c : b'.closed ≡ true = ground arith in
      (ground arith, ground arith, ground arith, ground arith)
