-- ===== src/Vmm/Tests.antt =====
-- Runs of the virtual memory code on a driver that counts, and the theorems at them.
use gocudrv.Base.{
  ℕ, ◌%◌, none, ◌+◌, ◌≤◌, ◌<◌, ◌≡◌, ◌↔◌, refl, true, false, ◌&&◌, not, some, [], ◌∷◌, arith, ◌==◌,
  if◌then◌else◌,
}
use gocudrv.Driver.Errors.{
  sentinel, buffer_closed, driver_error, joined, last, Symbol, ok, err, check, join,
}
use gocudrv.Driver.{Driver, Call}
use gocudrv.Driver.Calls.{
  invoke, mem_create, mem_address_reserve, mem_map, mem_set_access, mem_unmap, mem_address_free,
  mem_release,
}
use gocudrv.Buffer.{Slice, Elem}
use gocudrv.Vmm.{
  after_tear_down, close, copy_from, copy_to, VirtualBuffer, round_up, acquire_virtual,
  reserve_range, map_range, grant, undo_map, free_unmapped, tear_down, try_free,
}
use gocudrv.Vmm.Rounding.{round_up_least}
use gocudrv.Vmm.Ledger.{Watch, Tally, effect, Ledger}
use gocudrv.Vmm.Rollback.{acquire_virtual_no_leak, acquired}
use gocudrv.Vmm.Acquisition.{acquire_virtual-acquired}
use gocudrv.Vmm.Release.{close_releases, live}
use gocudrv.Context.State.{Store}
use gocudrv.Context.Exec.{background, do_wait}
use gocudrv.Context.Run.{do_with, submit_with, sync_barrier}
use gocudrv.Vmm.Teardown.{tear_down_tracks, released}

-- The calls that fail: granting access, and the release of handle 9.
abbrev code_of : Call → ℕ
code_of (Call.mem_set_access _ _ _) = 1
code_of (Call.mem_release h) = if h == 9 then 4 else 0
code_of _ = 0

-- A world that is what there is of every handle and range.
abbrev Holdings : Type 0
Holdings = Watch → Tally

abbrev counting : Driver Holdings
counting = record {
  bound = λ _. true;
  call = λ t c w. (
    record { code = code_of c; value = 7; second = 0; out = [] },
    λ v. if code_of c == 0 then effect v c 7 (w v) else w v,
  );
}

abbrev counting_ledger : Ledger counting
counting_ledger = record { tally = λ v w. w v; counts = λ v t c w. refl }

-- A driver on which every call succeeds.
abbrev granting : Driver Holdings
granting = record {
  bound = λ _. true;
  call = λ t c w. (record { code = 0; value = 7; second = 0; out = [] }, λ v. effect v c 7 (w v));
}

abbrev granting_ledger : Ledger granting
granting_ledger = record { tally = λ v w. w v; counts = λ v t c w. refl }

abbrev counted : Tally
counted = record { allocations = 2; reservations = 2; mappings = 1 }

abbrev before : Holdings
before _ = counted

-- The handle and the range that the driver gives.
abbrev watched : Watch
watched = record { handle = 7; address = 7; size = 4194304 }

-- Rounded up to 2 MiB.
round_up_least_example : (round_up 3000000 2097152 ≡ some 4194304) ↔ (
    (4194304 % 2097152 ≡ 0)
    × (3000000 ≤ 4194304)
    × (4194304 < 3000000 + 2097152)
    × (4194304 ≤ 18446744073709551615))
round_up_least_example = round_up_least 3000000 2097152 4194304 (omega arith) (omega arith)

abbrev denial : Holdings
denial = (acquire_virtual counting 0 4194304 2097152 1 before).1

denied :
    acquire_virtual counting 0 4194304 2097152 1 before
    ≡ (err (joined (last (driver_error 1 (some Symbol.mem_set_access)))), denial)
unfolding acquire_virtual reserve_range map_range grant undo_map free_unmapped mem_create
    mem_address_reserve mem_map mem_set_access mem_unmap mem_address_free mem_release invoke check
    join
denied = refl

acquire_virtual_no_leak_example : denial watched ≡ before watched
acquire_virtual_no_leak_example =
    acquire_virtual_no_leak counting counting_ledger watched 1 0 4194304 2097152
      (joined (last (driver_error 1 (some Symbol.mem_set_access)))) before denial denied refl

-- A buffer whose handle cannot be released.
abbrev stuck : VirtualBuffer
stuck = record {
  ctx = 0;
  elem = Elem.int32;
  ptr = 7;
  handle = 9;
  size = 4194304;
  length = 750000;
  bytes = 3000000;
  closed = false;
  mapped = true;
  reserved = true;
  created = true;
}

abbrev half_closed : VirtualBuffer
half_closed = record stuck { mapped = false; reserved = false }

abbrev after_half : Holdings
after_half = (tear_down counting stuck 1 before).1

half_torn_down :
    tear_down counting stuck 1 before
    ≡ (ok (half_closed, driver_error 4 (some Symbol.mem_release) ∷ []), after_half)
unfolding tear_down try_free mem_unmap mem_address_free mem_release invoke check
half_torn_down = refl

tear_down_tracks_example :
    (after_half watched ≡ released watched stuck half_closed counted)
    × (false ≡ false)
    × ((false && not true) ≡ false)
    × ((true && not true) ≡ false)
    × ((false && not true) ≡ false)
tear_down_tracks_example =
    tear_down_tracks counting counting_ledger watched 1 stuck half_closed
      (driver_error 4 (some Symbol.mem_release) ∷ []) before after_half half_torn_down

abbrev gained : Holdings
gained = (acquire_virtual granting 0 4194304 2097152 1 before).1

granted : acquire_virtual granting 0 4194304 2097152 1 before ≡ (ok (7, 7), gained)
unfolding acquire_virtual reserve_range map_range grant mem_create mem_address_reserve mem_map
    mem_set_access invoke check
granted = refl

acquire_virtual-acquired_example : gained watched ≡ acquired watched 4194304 7 7 counted
acquire_virtual-acquired_example =
    acquire_virtual-acquired granting granting_ledger watched 1 0 4194304 2097152 (7, 7) before
      gained granted

abbrev held : VirtualBuffer
held = record stuck { handle = 7 }

abbrev slice : Slice
slice = record { addr = 70; len = 750000 }

abbrev store : Store Holdings
store = record {
  contexts = λ _. record {
    device = 0;
    raw = 40;
    exec = some (record { thread = 5; is_closed = false });
    copy_exec = none;
    wait_lanes = [];
    sync_active = 0;
    command_err = none;
    closed = false;
  };
  next_thread = 8;
  reusable = [];
  quarantined = [];
  world = before;
}

abbrev after_close : Store Holdings
after_close = (close granting (some held) store).2

abbrev spent : VirtualBuffer
spent = record held { mapped = false; created = false; reserved = false; closed = true }

close_run : close granting (some held) store ≡ (none, some spent, after_close)
unfolding close after_tear_down tear_down try_free mem_unmap mem_address_free mem_release invoke
    check do_with submit_with sync_barrier do_wait
close_run = refl

close_releases_example :
    (live spent ≡ false)
    × (close granting (some spent) after_close ≡ (none, some spent, after_close))
    × (copy_from granting background (some spent) slice after_close
        ≡ (err (sentinel buffer_closed), after_close))
    × (copy_to granting background (some spent) slice after_close
        ≡ (err (sentinel buffer_closed), after_close))
close_releases_example =
    close_releases granting held spent background slice store after_close refl close_run
