-- ===== src/Context/Lanes/Choice.antt =====
-- Which lane a wait goes to.
use gocudrv.Base.{
  ℕ, zero, suc, ◌+◌, ◌≤◌, ◌<◌, ◌≡◌, refl, ◌⊎◌, inl, inr, none, some, List, [], ◌∷◌, arith, length,
  Bool-cases, Option-cases, ltb,
}
use gocudrv.Context.Lanes.{
  WaitLane, idle_wait_lane, least_loaded_from, least_loaded_wait_lane, chosen_lane,
}

-- The pending waits of the lane at a place; none where there is no lane.
abbrev pub pending_at : List WaitLane → ℕ → ℕ
pending_at [] j = 0
pending_at (lane ∷ lanes) zero = lane.pending
pending_at (lane ∷ lanes) (suc j) = pending_at lanes j

idle_some :
    (lanes : List WaitLane) (i : ℕ)
    → idle_wait_lane lanes ≡ some i
    → (i < length lanes) × (pending_at lanes i ≡ 0)
unfolding idle_wait_lane
idle_some [] i e = cc
idle_some (lane ∷ lanes) zero e = ground arith
idle_some (lane ∷ lanes) (suc i) e = ground (arith, idle_some lanes i)

idle_none :
    (lanes : List WaitLane) (j : ℕ)
    → idle_wait_lane lanes ≡ none
    → j < length lanes
    → 0 < pending_at lanes j
unfolding idle_wait_lane
idle_none [] j e h = elim h [ ]
idle_none (lane ∷ lanes) zero e h = ground arith
idle_none (lane ∷ lanes) (suc j) e h = ground (arith, idle_none lanes j)

-- Either no later lane has fewer waits than the best so far, or the result is a later lane with
-- fewer waits than the best and with no more than any other of the later ones.
least_loaded_from_lem :
    (best load i : ℕ) (lanes : List WaitLane)
    → ((least_loaded_from best load i lanes ≡ best)
        × ((j : ℕ) → j < length lanes → load ≤ pending_at lanes j))
      ⊎ ((k : ℕ) × (least_loaded_from best load i lanes ≡ i + k)
          × (k < length lanes)
          × (pending_at lanes k < load)
          × ((j : ℕ) → j < length lanes → pending_at lanes k ≤ pending_at lanes j))
unfolding least_loaded_from
least_loaded_from_lem best load i [] = inl (refl, λ j h. elim h [ ])
least_loaded_from_lem best load i (lane ∷ lanes) = elim (Bool-cases (ltb lane.pending load)) [
  | inl e ↦ rw e elim (least_loaded_from_lem i lane.pending (suc i) lanes) [
    | inl (r, low) ↦ inr (
      0,
      omega (arith, r),
      omega arith,
      ground arith,
      elim [ zero ↦ λ h. omega arith | suc j ↦ λ h. low j (omega arith) ],
    )
    | inr (k, r, h, l, low) ↦ inr (
      suc k,
      omega (arith, r),
      omega arith,
      ground arith,
      elim [ zero ↦ λ h'. omega arith | suc j ↦ λ h'. low j (omega arith) ],
    )
  ]
  | inr e ↦ rw e elim (least_loaded_from_lem best load (suc i) lanes) [
    | inl (r, low) ↦ inl (r, elim [ zero ↦ λ h. ground arith | suc j ↦ λ h. low j (omega arith) ])
    | inr (k, r, h, l, low) ↦ inr (
      suc k,
      omega (arith, r),
      omega arith,
      l,
      elim [ zero ↦ λ h'. ground arith | suc j ↦ λ h'. low j (omega arith) ],
    )
  ]
]

least_loaded_lem :
    (lanes : List WaitLane) (i : ℕ)
    → least_loaded_wait_lane lanes ≡ some i
    → (i < length lanes) × ((j : ℕ) → j < length lanes → pending_at lanes i ≤ pending_at lanes j)
unfolding least_loaded_wait_lane
least_loaded_lem [] i e = cc
least_loaded_lem (lane ∷ lanes) i e = elim (least_loaded_from_lem 0 lane.pending 1 lanes) [
  | inl (r, low) ↦
      let first : i ≡ 0 = ground arith in
      rw first (omega arith, elim [ zero ↦ λ h. omega arith | suc j ↦ λ h. low j (omega arith) ])
  | inr (k, r, h, l, low) ↦
      let later : i ≡ suc k = ground arith in
      rw later (omega arith, elim [ zero ↦ λ h'. omega arith | suc j ↦ λ h'. low j (omega arith) ])
]

least_loaded_ne_none :
    (lanes : List WaitLane) → least_loaded_wait_lane lanes ≡ none → length lanes ≡ 0
unfolding least_loaded_wait_lane
least_loaded_ne_none [] e = refl
least_loaded_ne_none (lane ∷ lanes) e = cc

-- The place that is chosen is that of a lane.
pub chosen_lane-lt : (lanes : List WaitLane) (i : ℕ) → chosen_lane lanes ≡ some i → i < length lanes
unfolding chosen_lane
chosen_lane-lt lanes i e = ground (
  arith,
  idle_some lanes i,
  λ (h : least_loaded_wait_lane lanes ≡ some i). (least_loaded_lem lanes i h).0,
)

-- A wait goes to a lane with the fewest pending waits of all: no lane `j` has fewer than the lane
-- `i` that `reuseWaitLane` picks, be it an idle one or the least loaded one of a full pool.
chosen_lane_least :
    (lanes : List WaitLane) (i j : ℕ)
    → chosen_lane lanes ≡ some i
    → j < length lanes
    → pending_at lanes i ≤ pending_at lanes j
unfolding chosen_lane
chosen_lane_least lanes i j e h = ground (
  arith,
  idle_some lanes i,
  λ (q : least_loaded_wait_lane lanes ≡ some i). (least_loaded_lem lanes i q).1 j h,
)

-- `reuseWaitLane` picks no lane only where there are fewer than eight and each of them has a
-- pending wait.
chosen_lane-none :
    (lanes : List WaitLane) (j : ℕ)
    → chosen_lane lanes ≡ none
    → j < length lanes
    → (length lanes < 8) × (0 < pending_at lanes j)
unfolding chosen_lane
chosen_lane-none lanes j e h = elim (Option-cases (idle_wait_lane lanes)) [
  | inl n ↦ (ground (arith, least_loaded_ne_none lanes), idle_none lanes j n h)
  | inr (i, q) ↦ ground arith
]

-- A full pool always has a lane to choose.
pub chosen_lane_short : (lanes : List WaitLane) → chosen_lane lanes ≡ none → length lanes < 8
unfolding chosen_lane
chosen_lane_short lanes e = ground (arith, least_loaded_ne_none lanes)
