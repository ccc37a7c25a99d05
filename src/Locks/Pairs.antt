-- ===== src/Locks/Pairs.antt =====
-- cuda/event.go and cuda/pitched.go: the methods that take the locks of two objects of a kind, in the order of
-- their addresses.
use gocudrv.Base.{
  ℕ, ◌<◌, ◌≡◌, refl, Bool, true, false, Option, none, some, List, [], ◌∷◌, map, ◌==◌, ltb,
  if◌then◌else◌, arith,
}
use gocudrv.Event.Locks.{lock_events}
use gocudrv.Locks.{Caller, method, closer, all_blocked, all_below, in_order, all_in_order}
use gocudrv.Locks.Order.{ordered_never_stuck}

-- `lockPitchedPair` on the buffers at two addresses: the lock that is taken first, and the second, if any.
abbrev pub second_of : ℕ × ℕ → ℕ × Option ℕ
second_of (first, second) = (first, if first == second then none else some second)

unfoldable pub lock_pitched_pair : ℕ → ℕ → ℕ × Option ℕ
lock_pitched_pair a b = second_of (if ltb b a then (b, a) else (a, b))

-- How far a method has got: it asks for its first lock, or for its second one, or has all of them.
pub data Stage : Type 0 where
  at_first at_second inside : Stage

abbrev both : ℕ → Option ℕ → List ℕ
both first none = first ∷ []
both first (some m) = m ∷ first ∷ []

unfoldable pub pair_caller : ℕ × Option ℕ → Stage → Caller
pair_caller (first, second) at_first = method [] (some first)
pair_caller (first, second) at_second = method (first ∷ []) second
pair_caller (first, second) inside = method (both first second) none

-- A call of `Elapsed` on two events, one of `CopyToDevice` or `CopyToDeviceAsync` of a pitched buffer on two
-- buffers, and a `Close` of an object, which has its lock or asks for it.
pub data Activity : Type 0 where
  elapsed_call : ℕ → ℕ → Stage → Activity
  pitched_copy : ℕ → ℕ → Stage → Activity
  close_call : ℕ → Bool → Activity

unfoldable pub caller_of : Activity → Caller
unfolding lock_events lock_pitched_pair pair_caller
caller_of (elapsed_call a b s) = pair_caller (lock_events a b) s
caller_of (pitched_copy a b s) = pair_caller (lock_pitched_pair a b) s
caller_of (close_call m has) = closer m has

pair_in_order :
    (first : ℕ) (second : Option ℕ) (s : Stage)
    → ((m : ℕ) → second ≡ some m → first < m)
    → in_order (pair_caller (first, second) s) ≡ true
unfolding pair_caller in_order all_below
pair_in_order first none at_first h = refl
pair_in_order first none at_second h = refl
pair_in_order first none inside h = refl
pair_in_order first (some m) at_first h = refl
pair_in_order first (some m) at_second h = let l = h m refl in ground arith
pair_in_order first (some m) inside h = refl

activity_in_order : (x : Activity) → in_order (caller_of x) ≡ true
unfolding caller_of
activity_in_order (elapsed_call a b s) =
    pair_in_order (lock_events a b).0 (lock_events a b).1 s
      (λ m e. unfold lock_events in ground arith)
activity_in_order (pitched_copy a b s) =
    pair_in_order (lock_pitched_pair a b).0 (lock_pitched_pair a b).1 s
      (λ m e. unfold lock_pitched_pair in ground arith)
activity_in_order (close_call m has) = unfold in_order in refl

all_activities_in_order : (xs : List Activity) → all_in_order (map caller_of xs) ≡ true
unfolding all_in_order
all_activities_in_order [] = refl
all_activities_in_order (x ∷ xs) = rw (activity_in_order x, all_activities_in_order xs) refl

-- However many calls of `Elapsed` on events, of `CopyToDevice` or `CopyToDeviceAsync` on pitched buffers, and of
-- `Close` on any of these objects there are, each at any point of taking the locks of its two objects, if there are
-- some then not all of them have to wait for one of these locks, also where a waiting `Close` holds up the methods
-- that come after it.
pub pairs_never_stuck :
    (x : Activity) (xs : List Activity)
    → all_blocked (map caller_of (x ∷ xs)) (map caller_of (x ∷ xs)) ≡ false
pairs_never_stuck x xs =
    ordered_never_stuck (caller_of x) (map caller_of xs) (all_activities_in_order (x ∷ xs))
