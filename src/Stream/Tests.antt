-- ===== src/Stream/Tests.antt =====
-- Runs of the streams, and the theorems at them.
use gocudrv.Base.{
  ◌≡◌, refl, true, false, ◌&&◌, not, Option, none, some, List, [], ◌∷◌, ℕ, ℤ, pos, negsuc,
}
use gocudrv.Driver.Errors.{sentinel, stream_closed, err, check}
use gocudrv.Driver.Calls.{invoke}
use gocudrv.Driver.Work.{stream_destroy}
use gocudrv.Context.Exec.{background, do_wait}
use gocudrv.Context.Run.{do_with, submit_with, sync_barrier}
use gocudrv.Context.Sample.{succeeding, open_store}
use gocudrv.Buffer.{Buffer, Stream, Elem}
use gocudrv.Buffer.Transfer.{zero_async, copy_to_device_async}
use gocudrv.Closing.{close_once, is_nil}
use gocudrv.Event.{Event, record_on, wait_event}
use gocudrv.Hostcb.{Registry, no_callbacks}
use gocudrv.Hostcb.Keys.{held-no_callbacks}
use gocudrv.Stream.{synchronize, query, close}
use gocudrv.Stream.Lifecycle.{stream-close_refuses}
use gocudrv.Stream.HostFunc.{launch_host_func, Holds, launch_host_func_lem}

-- A nil option, and a second priority that wins.
abbrev priorities : List (Option ℤ)
priorities = some (pos 3) ∷ none ∷ some (negsuc 0) ∷ []

abbrev stream : Stream
stream = record { ctx = 0; raw = 9; closed = false }

abbrev spent : Stream
spent = record { ctx = 0; raw = 9; closed = true }

abbrev event : Event
event = record { ctx = 0; raw = 11; closed = false; timing_disabled = false; interprocess = false }

abbrev buffer : Buffer
buffer = record {
  ctx = 0;
  elem = Elem.int32;
  ptr = 4096;
  length = 100;
  bytes = 400;
  closed = false;
}

close_run :
    close succeeding (some stream) open_store
    ≡ (none, some spent, (close succeeding (some stream) open_store).2)
unfolding close close_once stream_destroy do_with submit_with sync_barrier do_wait invoke check
close_run = refl

stream-close_refuses_example :
    (some spent ≡ some spent)
    × ((false && not (is_nil none)) ≡ false)
    × (close succeeding (some spent) (close succeeding (some stream) open_store).2
        ≡ (none, some spent, (close succeeding (some stream) open_store).2))
    × (synchronize succeeding (some spent) background (close succeeding (some stream) open_store).2
        ≡ (err (sentinel stream_closed), (close succeeding (some stream) open_store).2))
    × (query succeeding (some spent) (close succeeding (some stream) open_store).2
        ≡ (err (sentinel stream_closed), (close succeeding (some stream) open_store).2))
    × (record_on succeeding (some event) (some spent) (close succeeding (some stream) open_store).2
        ≡ (err (sentinel stream_closed), (close succeeding (some stream) open_store).2))
    × (wait_event succeeding
          (some spent)
          (some event)
          []
          (close succeeding (some stream) open_store).2
        ≡ (err (sentinel stream_closed), (close succeeding (some stream) open_store).2))
    × (zero_async succeeding background
          (some buffer)
          (some spent)
          (close succeeding (some stream) open_store).2
        ≡ (err (sentinel stream_closed), (close succeeding (some stream) open_store).2))
    × (copy_to_device_async succeeding background
          (some buffer)
          (some spent)
          (some buffer)
          (close succeeding (some stream) open_store).2
        ≡ (err (sentinel stream_closed), (close succeeding (some stream) open_store).2))
stream-close_refuses_example =
    stream-close_refuses succeeding stream (some spent) none event buffer buffer background
      open_store (close succeeding (some stream) open_store).2 close_run

abbrev callbacks : Registry ℕ
callbacks = no_callbacks

-- The driver runs the closure before the call returns.
launch_host_func_lem_example :
    Holds callbacks
      (1 ∷ [])
      (some 70)
      (launch_host_func succeeding 12 (1 ∷ []) (some stream) (some 70) callbacks open_store)
      1
launch_host_func_lem_example =
    launch_host_func_lem succeeding 12 (1 ∷ []) (some stream) (some 70) callbacks open_store 1
      (held-no_callbacks 1)
