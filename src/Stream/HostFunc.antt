-- ===== src/Stream/HostFunc.antt =====
-- cuda/hostfunc.go: `LaunchHostFunc`, on the registry of closures. The driver gets the trampoline's address
-- and the key, and runs the trampoline, which is `Invoke`, on a thread of its own: later, or before the
-- call returns. Which keys it runs during the call is a parameter.
use gocudrv.Base.{
  ℕ, ◌≡◌, refl, Bool, true, false, Option, none, some, List, [], ◌∷◌, ◌==◌, if◌then◌else◌, arith,
  Bool-cases, inl, inr,
}
use gocudrv.Driver.Errors.{Err, sentinel, nil_stream, nil_host_func, stream_closed, Result, ok, err}
use gocudrv.Driver.{Driver}
use gocudrv.Driver.Work.{launch_host_func as driver_launch_host_func}
use gocudrv.Context.Exec.{background}
use gocudrv.Context.State.{Store}
use gocudrv.Context.Run.{do_waited}
use gocudrv.Buffer.{Stream}
use gocudrv.Closing.{is_nil}
use gocudrv.Hostcb.{Registry, fresh_key, register, unregister, invoke}
use gocudrv.Hostcb.Keys.{held, held-register, held-unregister, invoke-lem}

module _ {F : Type 0} where
  -- The registry after the driver has run the trampoline on some keys.
  unfoldable pub after_callbacks : List ℕ → Registry F → Registry F
  unfolding invoke
  after_callbacks [] r = r
  after_callbacks (k ∷ ks) r = after_callbacks ks (invoke k r).1

module _ {F W : Type 0} where
  -- After the driver's answer: the key of a closure that it did not take is dropped.
  abbrev pub settled :
      ℕ → Registry F → Result (Unit {0}) × Store W → Option Err × Registry F × Store W
  settled k r (ok _, s) = (none, r, s)
  settled k r (err e, s) = (some e, unregister k r, s)

  module _ (d : Driver W) (callback : ℕ) (during : List ℕ) where
    abbrev registered : Stream → ℕ × Registry F → Store W → Option Err × Registry F × Store W
    registered st (k, r) s =
        settled k (after_callbacks during r)
          (do_waited d st.ctx background (driver_launch_host_func d st.raw callback k) s)

    -- `LaunchHostFunc`
    unfoldable pub launch_host_func :
        Option Stream → Option F → Registry F → Store W → Option Err × Registry F × Store W
    unfolding register unregister after_callbacks
    launch_host_func none f r s = (some (sentinel nil_stream), r, s)
    launch_host_func (some st) none r s = (some (sentinel nil_host_func), r, s)
    launch_host_func (some st) (some f) r s =
        if st.closed then (some (sentinel stream_closed), r, s) else registered st (register f r) s

abbrev pub runs : List ℕ → ℕ → Bool
runs [] k = false
runs (j ∷ js) k = if j == k then true else runs js k

module _ {F : Type 0} where
  -- A call that is refused at once gives the driver no time to run anything.
  abbrev pub run_during : Option Stream → Option F → List ℕ → List ℕ
  run_during none fn ks = []
  run_during (some st) none ks = []
  run_during (some st) (some f) ks = if st.closed then [] else ks

  held-after_callbacks :
      (ks : List ℕ) (k : ℕ) (r : Registry F)
      → held (after_callbacks ks r) k ≡ (if runs ks k then none else held r k)
  unfolding after_callbacks
  held-after_callbacks [] k r = refl
  held-after_callbacks (j ∷ ks) k r =
      let ih = held-after_callbacks ks k (invoke j r).1 in
      let (_, e, _) = invoke-lem j k r in ground arith

module _ {F W : Type 0} where
  -- What the registry holds afterwards, given whether the call succeeded and the keys that were run.
  abbrev pub Holds : Registry F → List ℕ → Option F → Option Err × Registry F × Store W → ℕ → Type 0
  Holds r ran fn x k = held x.1 k ≡ (
      if runs ran k
      then none
      else if is_nil x.0
      then (if fresh_key r == k then fn else held r k)
      else held r k)

  settled-Holds :
      (f : F) (ks : List ℕ) (r : Registry F) (k : ℕ) (x : Result (Unit {0}) × Store W)
      → held r (fresh_key r) ≡ none
      → Holds r ks (some f) (settled (fresh_key r) (after_callbacks ks (register f r).1) x) k
  settled-Holds f ks r k (ok _, s) h =
      let added = held-register f k r in
      let left = held-after_callbacks ks k (register f r).1 in ground arith
  settled-Holds f ks r k (err e, s) h =
      let added = held-register f k r in
      let left = held-after_callbacks ks k (register f r).1 in
      let dropped = held-unregister (fresh_key r) k (after_callbacks ks (register f r).1) in
      ground arith

  -- If the key that `Register` issues next is free, then whatever keys the driver runs the trampoline on before
  -- `LaunchHostFunc` returns: if it returns nil, its closure is registered under that key, unless the driver
  -- has run it already, when the key is free; and if it returns an error, be it of a nil or closed stream,
  -- of a nil closure, of the Context or of the driver, that key is free. Every other key holds what it
  -- held before, or nothing if the driver has run it.
  pub launch_host_func_lem :
      (d : Driver W) (callback : ℕ) (during : List ℕ) (st : Option Stream) (fn : Option F)
      (r : Registry F) (s : Store W) (k : ℕ)
      → held r (fresh_key r) ≡ none
      → Holds r (run_during st fn during) fn (launch_host_func d callback during st fn r s) k
  unfolding launch_host_func
  launch_host_func_lem d callback during none fn r s k h = refl
  launch_host_func_lem d callback during (some st) none r s k h = refl
  launch_host_func_lem d callback during (some st) (some f) r s k h = elim (Bool-cases st.closed) [
    | inl e ↦ rw e refl
    | inr e ↦ rw e (unfold register in settled-Holds f during r k _ h)
  ]
