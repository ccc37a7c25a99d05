-- ===== src/Context/Lanes/Tests.antt =====
-- Runs of the lane pool, and the theorems at them.
use gocudrv.Base.{ℕ, ◌≤◌, ◌≡◌, refl, false, List, [], ◌∷◌, length}
use gocudrv.Context.Lanes.{
  WaitLane, LanePool, LaneReach, start, next, begin_create, add_lane, release, lane_step,
  chosen_lane, release_wait_lane,
}
use gocudrv.Context.Lanes.Choice.{pending_at}
use gocudrv.Context.Lanes.Bound.{holders, wait_lanes_bounded, pending_counts_holders}

abbrev lane : ℕ → ℕ → WaitLane
lane thread pending = record {
  exec = record { thread = thread; is_closed = false };
  pending = pending;
}

-- Two lanes were made, and the first was released.
abbrev two_lanes : LanePool
two_lanes = record { lanes = lane 1 0 ∷ lane 2 1 ∷ []; creating = false; held = 1 ∷ [] }

two_lanes_run : LaneReach two_lanes
unfolding lane_step release_wait_lane chosen_lane
two_lanes_run =
    next (release 0)
      (next (add_lane (record { thread = 2; is_closed = false }))
        (next begin_create
          (next (add_lane (record { thread = 1; is_closed = false })) (next begin_create start refl)
            refl)
          refl)
        refl)
      refl

wait_lanes_bounded_example : length two_lanes.lanes ≤ 8
wait_lanes_bounded_example = wait_lanes_bounded two_lanes_run

pending_counts_holders_example : pending_at two_lanes.lanes 1 ≡ holders 1 two_lanes.held
pending_counts_holders_example = pending_counts_holders 1 two_lanes_run

abbrev full : List WaitLane
full = lane 1 2 ∷ lane 2 3 ∷ lane 3 1 ∷ lane 4 1 ∷ lane 5 2 ∷ lane 6 2 ∷ lane 7 4 ∷ lane 8 2 ∷ []
