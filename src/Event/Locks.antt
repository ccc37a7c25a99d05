-- ===== src/Event/Locks.antt =====
-- The order in which `Elapsed` takes the locks of two events.
use gocudrv.Base.{
  ℕ, ◌<◌, ◌≤◌, ◌≡◌, refl, Bool, true, false, not, Option, none, some, List, [], ◌∷◌, arith, ◌==◌,
  ltb, if◌then◌else◌, Bool-cases, Option-cases, inl, inr,
}

-- `lockEvents` on the events at two addresses: the lock that is taken first, and the second, if any.
unfoldable pub lock_events : ℕ → ℕ → ℕ × Option ℕ
lock_events a b = if a == b then (a, none) else if ltb b a then (b, some a) else (a, some b)

-- A call of `Elapsed` on two events, and the lock it waits for while it holds the first one.
abbrev pub ElapsedCall : Type 0
ElapsedCall = ℕ × ℕ

abbrev pub holds : ElapsedCall → ℕ
holds (a, b) = (lock_events a b).0

abbrev pub wants : ElapsedCall → Option ℕ
wants (a, b) = (lock_events a b).1

-- Some call of the list holds the lock.
unfoldable pub is_held : ℕ → List ElapsedCall → Bool
unfolding lock_events
is_held m [] = false
is_held m (c ∷ cs) = let r = is_held m cs in if holds c == m then true else r

-- Nobody in the list of calls, all inside `lockEvents` with their first lock, holds what `c` waits for.
abbrev pub is_free : List ElapsedCall → ElapsedCall → Bool
is_free cs c = elim (wants c) [ none ↦ true | some m ↦ not (is_held m cs) ]

unfoldable pub some_free : List ElapsedCall → List ElapsedCall → Bool
unfolding is_held lock_events
some_free all [] = false
some_free all (c ∷ cs) = let r = some_free all cs in if is_free all c then true else r

-- The greatest lock that a call waits for.
top : List ElapsedCall → ℕ
unfolding lock_events
top [] = 0
top (c ∷ cs) = let r = top cs in elim (wants c) [ none ↦ r | some m ↦ if ltb r m then m else r ]

wants-holds : (c : ElapsedCall) (m : ℕ) → wants c ≡ some m → holds c < m
unfolding lock_events
wants-holds (a, b) m e = ground arith

-- No call of the list has both its locks.
no_idle : List ElapsedCall → Bool
unfolding lock_events
no_idle [] = true
no_idle (c ∷ cs) = let r = no_idle cs in elim (wants c) [ none ↦ false | some _ ↦ r ]

-- The holder of a lock waits for a greater one, so nobody holds a lock that is greatest.
greatest_free :
    (m : ℕ) (cs : List ElapsedCall) → top cs ≤ m → no_idle cs ≡ true → is_held m cs ≡ false
unfolding top no_idle is_held
greatest_free m [] l n = refl
greatest_free m (c ∷ cs) l n =
    let ih = greatest_free m cs in
    let f = wants-holds c in
    elim (Option-cases (wants c)) [
      | inl e ↦ ground arith
      | inr (k, e) ↦ (let g = wants-holds c k e in ground arith)
    ]

idle_free : (all cs : List ElapsedCall) → no_idle cs ≡ false → some_free all cs ≡ true
unfolding no_idle some_free
idle_free all [] n = cc
idle_free all (c ∷ cs) n = let ih = idle_free all cs in ground arith

greatest_waits :
    (all cs : List ElapsedCall)
    → is_held (top cs) all ≡ false
    → 0 < top cs
    → some_free all cs ≡ true
unfolding top some_free
greatest_waits all [] h l = absurd (omega arith)
greatest_waits all (c ∷ cs) h l = let ih = greatest_waits all cs in ground arith

top_pos : (c : ElapsedCall) (cs : List ElapsedCall) → no_idle (c ∷ cs) ≡ true → 0 < top (c ∷ cs)
unfolding top no_idle
top_pos c cs n = elim (Option-cases (wants c)) [
  | inl e ↦ ground arith
  | inr (k, e) ↦ (let g = wants-holds c k e in ground arith)
]

-- However many calls of `Elapsed` are inside `lockEvents`, on any events and each with its first lock
-- taken, one of them has all its locks or waits for a lock that none of them holds: they cannot all
-- wait for each other.
elapsed_never_deadlocks :
    (c : ElapsedCall) (cs : List ElapsedCall) → some_free (c ∷ cs) (c ∷ cs) ≡ true
elapsed_never_deadlocks c cs = elim (Bool-cases (no_idle (c ∷ cs))) [
  | inl n ↦
      greatest_waits (c ∷ cs) (c ∷ cs) (greatest_free (top (c ∷ cs)) (c ∷ cs) (omega arith) n)
        (top_pos c cs n)
  | inr n ↦ idle_free (c ∷ cs) (c ∷ cs) n
]
