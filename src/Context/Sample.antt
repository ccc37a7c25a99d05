-- ===== src/Context/Sample.antt =====
-- A driver that logs its calls, and a store with one open Context, for the runs in the tests.
use gocudrv.Base.{true, false, none, some, List, [], ◌∷◌}
use gocudrv.Driver.{Driver, Call}
use gocudrv.Context.State.{Store}

-- Every call succeeds and returns 4096.
abbrev pub succeeding : Driver (List Call)
succeeding = record {
  bound = λ _. true;
  call = λ t c w. (record { code = 0; value = 4096; second = 0; out = [] }, c ∷ w);
}

-- A Context with one wait lane.
abbrev pub open_store : Store (List Call)
open_store = record {
  contexts = λ _. record {
    device = 0;
    raw = 40;
    exec = some (record { thread = 5; is_closed = false });
    copy_exec = none;
    wait_lanes = record { exec = record { thread = 7; is_closed = false }; pending = 0 } ∷ [];
    sync_active = 0;
    command_err = none;
    closed = false;
  };
  next_thread = 8;
  reusable = [];
  quarantined = [];
  world = [];
}
