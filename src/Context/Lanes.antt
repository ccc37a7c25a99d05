-- ===== src/Context/Lanes.antt =====
-- cuda/context.go: the wait lanes of a Context, pinned executors that block in a synchronization. A
-- lane is known by its place in `waitLanes`. `acquireWaitLane` is two or three critical sections
-- with the creation of an executor between them, so other callers act in between: an event is one
-- critical section.
pub mod Choice
pub mod Bound
mod Tests
use gocudrv.Base.{
  ℕ, zero, suc, ◌+◌, ◌-◌, ◌≡◌, Bool, true, false, Option, none, some, List, [], ◌∷◌, ◌++◌, ◌==◌,
  ltb, leb, if◌then◌else◌, length, get_elem?, set,
}
use gocudrv.Context.Exec.{Exec}

abbrev pub max_wait_lanes : ℕ
max_wait_lanes = 8

pub record WaitLane : Type 0 where
  pub exec : Exec
  pub pending : ℕ

-- `idleWaitLane`: the first lane with no pending wait.
unfoldable pub idle_wait_lane : List WaitLane → Option ℕ
idle_wait_lane [] = none
idle_wait_lane (lane ∷ lanes) =
    let rest = idle_wait_lane lanes in
    if lane.pending == 0 then some 0 else elim rest [ none ↦ none | some i ↦ some (suc i) ]

-- The loop of `leastLoadedWaitLane`: `best` is the place of the chosen lane so far, `load` its
-- pending waits, and `i` the place of the next lane.
unfoldable pub least_loaded_from : ℕ → ℕ → ℕ → List WaitLane → ℕ
least_loaded_from best load i [] = best
least_loaded_from best load i (lane ∷ lanes) =
    least_loaded_from (if ltb lane.pending load then i else best)
      (if ltb lane.pending load then lane.pending else load) (suc i) lanes

-- `leastLoadedWaitLane`. It is called with at least one lane; `waitLanes[0]` would panic otherwise.
unfoldable pub least_loaded_wait_lane : List WaitLane → Option ℕ
unfolding least_loaded_from
least_loaded_wait_lane [] = none
least_loaded_wait_lane (lane ∷ lanes) = some (least_loaded_from 0 lane.pending 1 lanes)

-- `lane.pending++` and `lane.pending--` on the lane at a place.
unfoldable pub claim : ℕ → List WaitLane → List WaitLane
claim i [] = []
claim zero (lane ∷ lanes) = record lane { pending = lane.pending + 1 } ∷ lanes
claim (suc i) (lane ∷ lanes) = lane ∷ claim i lanes

-- `releaseWaitLane`
unfoldable pub release_wait_lane : ℕ → List WaitLane → List WaitLane
release_wait_lane i [] = []
release_wait_lane zero (lane ∷ lanes) = record lane { pending = lane.pending - 1 } ∷ lanes
release_wait_lane (suc i) (lane ∷ lanes) = lane ∷ release_wait_lane i lanes

-- The lane that `reuseWaitLane` claims: an idle one, or the least loaded one of a full pool.
unfoldable pub chosen_lane : List WaitLane → Option ℕ
unfolding idle_wait_lane least_loaded_wait_lane
chosen_lane lanes = elim (idle_wait_lane lanes) [
  | some i ↦ some i
  | none ↦ if leb max_wait_lanes (length lanes) then least_loaded_wait_lane lanes else none
]

-- `reuseWaitLane`
unfoldable pub reuse_wait_lane : List WaitLane → Option ℕ × List WaitLane
unfolding chosen_lane claim
reuse_wait_lane lanes = elim (chosen_lane lanes) [
  | some i ↦ (some i, claim i lanes)
  | none ↦ (none, lanes)
]

-- The lanes, whether a caller holds `laneCreateMu` and is creating a lane, and the lanes that
-- callers hold, one entry for each wait in flight.
pub record LanePool : Type 0 where
  pub lanes : List WaitLane
  pub creating : Bool
  pub held : List ℕ

abbrev pub no_lanes : LanePool
no_lanes = record { lanes = []; creating = false; held = [] }

pub data LaneEvent : Type 0 where
  -- the first `reuseWaitLane` of `acquireWaitLane`, which finds a lane
  reuse : LaneEvent
  -- `laneCreateMu` is taken and the second `reuseWaitLane` runs
  begin_create : LaneEvent
  -- `newExecutor` has failed, or its executor becomes a lane
  fail_create : LaneEvent
  add_lane : Exec → LaneEvent
  -- `releaseWaitLane` on a lane that some caller holds
  release : ℕ → LaneEvent

drop_one : ℕ → List ℕ → Option (List ℕ)
drop_one i [] = none
drop_one i (j ∷ js) =
    let rest = drop_one i js in
    if j == i then some js else elim rest [ none ↦ none | some ks ↦ some (j ∷ ks) ]

-- A caller leaves `reuseWaitLane` with a lane.
take_lane : LanePool → Option LanePool
unfolding reuse_wait_lane
take_lane p =
    let (found, lanes) = reuse_wait_lane p.lanes in
    elim found [ some i ↦ some (record p { lanes = lanes; held = i ∷ p.held }) | none ↦ none ]

-- One critical section; `none` where the event cannot happen.
unfoldable pub lane_step : LanePool → LaneEvent → Option LanePool
unfolding take_lane drop_one
lane_step p reuse = take_lane p
lane_step p begin_create =
    if p.creating
    then none
    else elim (take_lane p) [ some q ↦ some q | none ↦ some (record p { creating = true }) ]
lane_step p fail_create = if p.creating then some (record p { creating = false }) else none
lane_step p (add_lane x) =
    if p.creating
    then some (record p {
      lanes = p.lanes ++ record { exec = x; pending = 1 } ∷ [];
      creating = false;
      held = length p.lanes ∷ p.held;
    })
    else none
lane_step p (release i) = elim (drop_one i p.held) [
  | none ↦ none
  | some rest ↦ some (record p { lanes = release_wait_lane i p.lanes; held = rest })
]

pub data LaneReach : LanePool → Type 0 where
  start : LaneReach no_lanes
  next : {p q : LanePool} (ev : LaneEvent) → LaneReach p → lane_step p ev ≡ some q → LaneReach q
