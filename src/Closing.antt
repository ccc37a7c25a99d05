-- ===== src/Closing.antt =====
-- The `Close` that the objects of a Context share: nothing for a closed object, and otherwise one
-- command behind the barrier, whose failure leaves the object open.
use gocudrv.Base.{ℕ, ◌≡◌, refl, ◌&&◌, not, Bool, true, false, Option, none, some}
use gocudrv.Driver.Errors.{Err, Result, ok, err}
use gocudrv.Driver.{Driver, Cmd}
use gocudrv.Context.Exec.{background}
use gocudrv.Context.State.{Store}
use gocudrv.Context.Run.{do_barrier}

abbrev pub is_nil : Option Err → Bool
is_nil none = true
is_nil (some _) = false

module _ {W : Type 0} where
  abbrev after_close : Result (Unit {0}) × Store W → Option Err × Bool × Store W
  after_close (ok _, s) = (none, true, s)
  after_close (err e, s) = (some e, false, s)

  after_close-is_nil :
      (r : Result (Unit {0}) × Store W) → (after_close r).1 ≡ is_nil (after_close r).0
  after_close-is_nil (ok _, s) = refl
  after_close-is_nil (err e, s) = refl

  module _ (d : Driver W) where
    -- The error, whether the object is closed then, and the store.
    unfoldable pub close_once : Bool → ℕ → Cmd W (Unit {0}) → Store W → Option Err × Bool × Store W
    close_once true c destroy s = (none, true, s)
    close_once false c destroy s = after_close (do_barrier d c background destroy s)

    -- An object is closed exactly if its `Close` returns nil, and only an open object fails to close.
    pub close_once_lem :
        (closed : Bool) (c : ℕ) (destroy : Cmd W (Unit {0})) (s : Store W)
        → ((close_once closed c destroy s).1 ≡ is_nil (close_once closed c destroy s).0)
          × ((closed && not (is_nil (close_once closed c destroy s).0)) ≡ false)
    unfolding close_once
    close_once_lem true c destroy s = (refl, refl)
    close_once_lem false c destroy s =
        (after_close-is_nil (do_barrier d c background destroy s), refl)
