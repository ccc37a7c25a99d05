-- ===== src/Context/Lanes/Bound.antt =====
-- The lanes of a Context over every interleaving of its callers: how many there are, and that each
-- lane's count of pending waits is right.
use gocudrv.Base.{
  ℕ, zero, suc, ◌+◌, ◌-◌, ◌≤◌, ◌<◌, ◌≡◌, refl, subst, ◌⊎◌, inl, inr, true, false, none, some, List,
  [], ◌∷◌, ◌++◌, arith, length, length-append, Bool-cases, Option-cases, ◌==◌, if◌then◌else◌,
}
use gocudrv.Context.Exec.{Exec}
use gocudrv.Context.Lanes.{
  WaitLane, LanePool, LaneEvent, LaneReach, start, next, no_lanes, claim, release_wait_lane,
  chosen_lane, reuse_wait_lane, take_lane, drop_one, lane_step, reuse, begin_create, fail_create,
  add_lane, release,
}
use gocudrv.Context.Lanes.Choice.{pending_at, chosen_lane-lt, chosen_lane_short}

-- How many callers hold the lane at a place.
abbrev pub holders : ℕ → List ℕ → ℕ
holders i [] = 0
holders i (j ∷ js) = (if j == i then 1 else 0) + holders i js

pub length-claim : (i : ℕ) (lanes : List WaitLane) → length (claim i lanes) ≡ length lanes
unfolding claim
length-claim i [] = refl
length-claim zero (lane ∷ lanes) = refl
length-claim (suc i) (lane ∷ lanes) = omega (arith, length-claim i lanes)

pub length-release :
    (i : ℕ) (lanes : List WaitLane) → length (release_wait_lane i lanes) ≡ length lanes
unfolding release_wait_lane
length-release i [] = refl
length-release zero (lane ∷ lanes) = refl
length-release (suc i) (lane ∷ lanes) = omega (arith, length-release i lanes)

pub pending_at-claim :
    (i j : ℕ) (lanes : List WaitLane)
    → i < length lanes
    → pending_at (claim i lanes) j ≡ (if i == j then 1 else 0) + pending_at lanes j
unfolding claim
pending_at-claim i j [] h = elim h [ ]
pending_at-claim zero zero (lane ∷ lanes) h = omega arith
pending_at-claim zero (suc j) (lane ∷ lanes) h = ground arith
pending_at-claim (suc i) zero (lane ∷ lanes) h = ground arith
pending_at-claim (suc i) (suc j) (lane ∷ lanes) h = ground (arith, pending_at-claim i j lanes)

pub pending_at-release :
    (i j : ℕ) (lanes : List WaitLane)
    → pending_at (release_wait_lane i lanes) j ≡ pending_at lanes j - (if i == j then 1 else 0)
unfolding release_wait_lane
pending_at-release i j [] = omega arith
pending_at-release zero zero (lane ∷ lanes) = ground arith
pending_at-release zero (suc j) (lane ∷ lanes) = ground arith
pending_at-release (suc i) zero (lane ∷ lanes) = ground arith
pending_at-release (suc i) (suc j) (lane ∷ lanes) = ground (arith, pending_at-release i j lanes)

pub pending_at-append :
    (lanes : List WaitLane) (lane : WaitLane) (j : ℕ)
    → pending_at (lanes ++ lane ∷ []) j
      ≡ (if length lanes == j then lane.pending else 0) + pending_at lanes j
pending_at-append [] lane zero = ground arith
pending_at-append [] lane (suc j) = ground arith
pending_at-append (l ∷ lanes) lane zero = ground arith
pending_at-append (l ∷ lanes) lane (suc j) = ground (arith, pending_at-append lanes lane j)

holders-drop_one :
    (i j : ℕ) (js rest : List ℕ)
    → drop_one i js ≡ some rest
    → holders j js ≡ (if i == j then 1 else 0) + holders j rest
unfolding drop_one
holders-drop_one i j [] rest e = cc
holders-drop_one i j (k ∷ ks) rest e = elim (Option-cases (drop_one i ks)) [
  | inl n ↦ ground arith
  | inr (r, q) ↦ ground (arith, holders-drop_one i j ks r q)
]

-- The pool is bounded, with room for the lane being made, and each lane counts its holders.
pub record Inv (p : LanePool) : Type 0 where
  pub bounded : length p.lanes + (if p.creating then 1 else 0) ≤ 8
  pub counted : (j : ℕ) → pending_at p.lanes j ≡ holders j p.held

no_lanes-Inv : Inv no_lanes
no_lanes-Inv = record { bounded = omega arith; counted = λ j. refl }

take_lane_cases :
    (p : LanePool)
    → ((take_lane p ≡ none) × (chosen_lane p.lanes ≡ none))
      ⊎ ((i : ℕ) × (chosen_lane p.lanes ≡ some i)
          × (take_lane p ≡ some (record p { lanes = claim i p.lanes; held = i ∷ p.held })))
unfolding take_lane reuse_wait_lane
take_lane_cases p = elim (Option-cases (chosen_lane p.lanes)) [
  | inl e ↦ inl (rw (e, take_lane), e)
  | inr (i, e) ↦ inr (i, e, ground arith)
]

claimed-Inv :
    (p : LanePool) (i : ℕ)
    → chosen_lane p.lanes ≡ some i
    → Inv p
    → Inv (record p { lanes = claim i p.lanes; held = i ∷ p.held })
claimed-Inv p i e v = record {
  bounded = omega (arith, length-claim i p.lanes, v.bounded);
  counted =
      λ j. ground (arith, pending_at-claim i j p.lanes (chosen_lane-lt p.lanes i e), v.counted j);
}

take_lane-Inv : (p q : LanePool) → take_lane p ≡ some q → Inv p → Inv q
take_lane-Inv p q s v = elim (take_lane_cases p) [
  | inl (n, _) ↦ cc
  | inr (i, c, t) ↦ subst Inv (taken i t) (claimed-Inv p i c v)
]
  where
    taken :
        (i : ℕ)
        → take_lane p ≡ some (record p { lanes = claim i p.lanes; held = i ∷ p.held })
        → record p { lanes = claim i p.lanes; held = i ∷ p.held } ≡ q
    taken i t = cc

creating-Inv :
    (p : LanePool)
    → take_lane p ≡ none
    → p.creating ≡ false
    → Inv p
    → Inv (record p { creating = true })
creating-Inv p n c v = elim (take_lane_cases p) [
  | inl (_, e) ↦ (record {
    bounded = omega (arith, chosen_lane_short p.lanes e);
    counted = v.counted;
  })
  | inr (i, _, t) ↦ cc
]

begin_create-Inv : (p q : LanePool) → lane_step p begin_create ≡ some q → Inv p → Inv q
unfolding lane_step
begin_create-Inv p q s v = elim (Bool-cases p.creating) [
  | inl c ↦ ground arith
  | inr c ↦ elim (Option-cases (take_lane p)) [
    | inl n ↦ subst Inv (made n c) (creating-Inv p n c v)
    | inr (r, t) ↦ subst Inv (found r t c) (take_lane-Inv p r t v)
  ]
]
  where
    made : take_lane p ≡ none → p.creating ≡ false → record p { creating = true } ≡ q
    made n c = ground arith

    found : (r : LanePool) → take_lane p ≡ some r → p.creating ≡ false → r ≡ q
    found r t c = ground arith

fail_create-Inv : (p q : LanePool) → lane_step p fail_create ≡ some q → Inv p → Inv q
unfolding lane_step
fail_create-Inv p q s v = elim (Bool-cases p.creating) [
  | inl c ↦
      subst Inv (ended c) (record { bounded = ground (arith, v.bounded); counted = v.counted })
  | inr c ↦ ground arith
]
  where
    ended : p.creating ≡ true → record p { creating = false } ≡ q
    ended c = ground arith

add_lane-Inv : (p q : LanePool) (x : Exec) → lane_step p (add_lane x) ≡ some q → Inv p → Inv q
unfolding lane_step
add_lane-Inv p q x s v = elim (Bool-cases p.creating) [
  | inl c ↦ subst Inv (added c) (record {
    bounded = ground (arith, v.bounded, length-append p.lanes (fresh ∷ []));
    counted = λ j. ground (arith, pending_at-append p.lanes fresh j, v.counted j);
  })
  | inr c ↦ ground arith
]
  where
    fresh : WaitLane
    fresh = record { exec = x; pending = 1 }

    added :
        p.creating ≡ true
        → record p {
          lanes = p.lanes ++ fresh ∷ [];
          creating = false;
          held = length p.lanes ∷ p.held;
        }
          ≡ q
    added c = ground arith

release-Inv : (p q : LanePool) (i : ℕ) → lane_step p (release i) ≡ some q → Inv p → Inv q
unfolding lane_step
release-Inv p q i s v = elim (Option-cases (drop_one i p.held)) [
  | inl n ↦ ground arith
  | inr (rest, d) ↦ subst Inv (freed rest d) (record {
    bounded = omega (arith, length-release i p.lanes, v.bounded);
    counted = λ j.
        ground
          (arith, pending_at-release i j p.lanes, holders-drop_one i j p.held rest d, v.counted j);
  })
]
  where
    freed :
        (rest : List ℕ)
        → drop_one i p.held ≡ some rest
        → record p { lanes = release_wait_lane i p.lanes; held = rest } ≡ q
    freed rest d = ground arith

lane_step-Inv : (p q : LanePool) (ev : LaneEvent) → lane_step p ev ≡ some q → Inv p → Inv q
lane_step-Inv p q reuse s v = take_lane-Inv p q (unfold lane_step in s) v
lane_step-Inv p q begin_create s v = begin_create-Inv p q s v
lane_step-Inv p q fail_create s v = fail_create-Inv p q s v
lane_step-Inv p q (add_lane x) s v = add_lane-Inv p q x s v
lane_step-Inv p q (release i) s v = release-Inv p q i s v

LaneReach-Inv : {p : LanePool} → LaneReach p → Inv p
LaneReach-Inv start = no_lanes-Inv
LaneReach-Inv (next {p} {q} ev r s) = lane_step-Inv p q ev s (LaneReach-Inv r)

-- However the callers of `acquireWaitLane` and `releaseWaitLane` interleave, also while a lane is
-- being created outside the lock, a Context never has more than eight wait lanes.
pub wait_lanes_bounded : {p : LanePool} → LaneReach p → length p.lanes ≤ 8
wait_lanes_bounded r = omega (arith, (LaneReach-Inv r).bounded)

-- However the callers interleave, the pending count of each lane is the number of callers that
-- hold it.
pub pending_counts_holders :
    {p : LanePool} (j : ℕ) → LaneReach p → pending_at p.lanes j ≡ holders j p.held
pending_counts_holders j r = (LaneReach-Inv r).counted j
