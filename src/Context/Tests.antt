-- ===== src/Context/Tests.antt =====
-- Runs of a Context on a driver that logs its calls, and the theorems at them.
use gocudrv.Base.{arith, ◌≡◌, refl, true, false, none, some, List, [], ◌∷◌}
use gocudrv.Driver.Errors.{sentinel, context_closed, err, check, join}
use gocudrv.Driver.{Driver, Call}
use gocudrv.Driver.Calls.{
  invoke, ctx_set_current, primary_ctx_retain, primary_ctx_release, mem_get_info,
}
use gocudrv.Context.Exec.{Exec, GoContext, background, do_wait}
use gocudrv.Context.Sync.{do_job_ctx, acquire_wait_lane}
use gocudrv.Context.Waiting.{Waited, place, do_job_ctx-Balanced}
use gocudrv.Context.State.{Context, Store}
use gocudrv.Context.Run.{do_with, do_job, do_copy}
use gocudrv.Context.Close.{
  primary, retain_job, close, close_recovered, close_live, close_with, close_wait_lanes,
  close_lanes, close_copy_executor, close_executor, recover_command_executor, release_job,
  finish_close, settle,
}
use gocudrv.Context.Lifecycle.{sound, close-sound, close_closes, stripped}
use gocudrv.Context.Service.{closed_refuses}

abbrev logging : Driver (List Call)
logging = record {
  bound = λ _. true;
  call = λ t c w. (record { code = 0; value = 40; second = 80; out = [] }, c ∷ w);
}

abbrev command : Exec
command = record { thread = 5; is_closed = false }

abbrev unused : Context
unused = record {
  device = 0;
  raw = 0;
  exec = none;
  copy_exec = none;
  wait_lanes = [];
  sync_active = 0;
  command_err = none;
  closed = false;
}

-- A new Context, with a copy executor and one wait lane.
abbrev fresh : Context
fresh = record unused {
  raw = 40;
  exec = some command;
  copy_exec = some (record { thread = 6; is_closed = false });
  wait_lanes = record { exec = record { thread = 7; is_closed = false }; pending = 0 } ∷ [];
}

abbrev spent : Context
spent = record fresh {
  exec = some (record command { is_closed = true });
  copy_exec = none;
  wait_lanes = [];
  closed = true;
}

abbrev world_with : Context → Store (List Call)
world_with x = record {
  contexts = λ _. x;
  next_thread = 8;
  reusable = [];
  quarantined = [];
  world = [];
}

primary_run :
    primary logging 0 0 (world_with unused) ≡ (none, (primary logging 0 0 (world_with unused)).1)
unfolding primary retain_job do_wait ctx_set_current primary_ctx_retain invoke check
primary_run = refl

close-sound_example : sound ((close logging 0 (world_with fresh)).1.contexts 0) ≡ true
close-sound_example = close-sound logging 0 (world_with fresh) refl

close_run : close logging 0 (world_with fresh) ≡ (none, (close logging 0 (world_with fresh)).1)
unfolding close close_recovered close_live close_with close_wait_lanes close_lanes
    close_copy_executor close_executor recover_command_executor release_job finish_close settle
    do_wait ctx_set_current primary_ctx_release invoke check join
close_run = refl

abbrev after_close : Store (List Call)
after_close = (close logging 0 (world_with fresh)).1

closed_refuses_example :
    (do_with logging 0 background (mem_get_info logging) true true after_close
      ≡ (err (sentinel context_closed), after_close))
    × (do_job logging 0 background (mem_get_info logging) after_close
        ≡ (err (sentinel context_closed), after_close))
    × (do_copy logging 0 background (mem_get_info logging) after_close
        ≡ (err (sentinel context_closed), after_close))
    × (do_job_ctx logging 0 background (mem_get_info logging) after_close
        ≡ (err (sentinel context_closed), after_close))
    × (close logging 0 after_close ≡ (none, after_close))
closed_refuses_example =
    closed_refuses logging 0 background (mem_get_info logging) true true (world_with fresh)
      after_close refl close_run

close_closes_example :
    (((close logging 0 (world_with fresh)).1.contexts 0).closed ≡ true)
    × (stripped ((close logging 0 (world_with fresh)).1.contexts 0) ≡ true)
close_closes_example =
    close_closes logging 0 (world_with fresh) (close logging 0 (world_with fresh)).1 refl close_run

-- A wait that is canceled while its job runs.
abbrev canceled : GoContext
canceled = record { at_guard = none; at_submit = none; at_wait = some 1 }

do_job_ctx-Balanced_example :
    Waited logging 0 true
      (place logging 0 (world_with fresh))
      0
      (world_with fresh)
      (do_job_ctx logging 0 canceled (mem_get_info logging) (world_with fresh)).1
unfolding acquire_wait_lane
do_job_ctx-Balanced_example =
    do_job_ctx-Balanced logging 0 0 canceled (mem_get_info logging) (world_with fresh) (omega arith)
