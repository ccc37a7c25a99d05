-- ===== src/Locks/Tests.antt =====
-- Two crossed pairs of calls, and the theorem at them.
use gocudrv.Base.{◌≡◌, false, [], ◌∷◌, map}
use gocudrv.Locks.{all_blocked}
use gocudrv.Locks.Pairs.{
  at_second, at_first, elapsed_call, close_call, caller_of, pairs_never_stuck,
}

pairs_never_stuck_example :
    all_blocked
      (map caller_of
        (elapsed_call 7 3 at_second ∷ elapsed_call 3 7 at_first ∷ close_call 7 false ∷ []))
      (map caller_of
        (elapsed_call 7 3 at_second ∷ elapsed_call 3 7 at_first ∷ close_call 7 false ∷ []))
    ≡ false
pairs_never_stuck_example =
    pairs_never_stuck (elapsed_call 7 3 at_second)
      (elapsed_call 3 7 at_first ∷ close_call 7 false ∷ [])
