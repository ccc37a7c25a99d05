-- ===== src/Linker/Tests.antt =====
-- Runs of a link session, and the theorems at them.
use gocudrv.Base.{◌≡◌, refl, true, false, none, some, [], ◌∷◌, pos, List}
use gocudrv.Driver.Errors.{err, sentinel, linker_closed, check}
use gocudrv.Driver.Calls.{invoke}
use gocudrv.Driver.Objects.{link_destroy}
use gocudrv.Context.Exec.{do_wait}
use gocudrv.Context.Run.{do_with, submit_with, sync_barrier}
use gocudrv.Context.State.{Store}
use gocudrv.Context.Sample.{succeeding, open_store}
use gocudrv.Driver.{Call}
use gocudrv.Module.Jit.{JitOptions}
use gocudrv.Closing.{close_once, is_nil}
use gocudrv.Linker.{Linker, Arrays, ptx, pinned, new_linker, add_input, complete, close}
use gocudrv.Linker.Lifecycle.{Pinned, Leaves, new_linker-Leaves, linker-close_unpins}

abbrev arrays : Arrays
arrays = record { info_buf = 100; err_buf = 200; options = 300; values = 400 }

abbrev options : JitOptions
options = record { log_buffer_bytes = pos 0; max_registers = pos 32 }

new_linker-Leaves_example :
    Leaves succeeding arrays ptx
      (9 ∷ [])
      []
      3
      []
      (new_linker succeeding (some 0) options arrays open_store).0.1
      (new_linker succeeding (some 0) options arrays open_store).0.0
new_linker-Leaves_example =
    new_linker-Leaves succeeding 0 options arrays ptx (9 ∷ []) [] 3 [] open_store

abbrev session : Linker
session = record {
  ctx = 0;
  raw = 4096;
  info_buf = 100;
  err_buf = 200;
  options = 300;
  values = 400;
  pins = pinned arrays;
  closed = false;
}

abbrev ended : Linker
ended = record session { closed = true; pins = [] }

abbrev after : Store (List Call)
after = record open_store { world = Call.link_destroy 4096 ∷ [] }

close_run : close succeeding (some session) open_store ≡ (none, some ended, after)
unfolding close close_once link_destroy do_with submit_with sync_barrier do_wait invoke check
close_run = refl

linker-close_unpins_example :
    Pinned arrays ended
    × (ended.closed ≡ is_nil none)
    × (add_input succeeding (some ended) [] (9 ∷ []) ptx after
        ≡ (err (sentinel linker_closed), after))
    × (complete succeeding (some ended) after ≡ (err (sentinel linker_closed), after))
    × (close succeeding (some ended) after ≡ (none, some ended, after))
linker-close_unpins_example =
    linker-close_unpins succeeding arrays session ended none [] (9 ∷ []) ptx open_store after refl
      close_run
