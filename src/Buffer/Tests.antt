-- ===== src/Buffer/Tests.antt =====
-- Runs of the buffer methods on a driver that logs its calls, and the theorems at them.
use gocudrv.Base.{
  ℕ, ◌+◌, ◌≤◌, ◌≡◌, refl, true, false, Option, none, some, List, [], ◌∷◌, arith, ◌==◌,
  if◌then◌else◌, pos,
}
use gocudrv.Driver.Errors.{driver_error, Symbol, ok, err, check}
use gocudrv.Driver.{Driver, Call}
use gocudrv.Driver.Calls.{invoke, mem_alloc, mem_free}
use gocudrv.Context.Exec.{background, do_wait, do_ctx}
use gocudrv.Context.State.{Store}
use gocudrv.Context.Run.{do_with, submit_with, sync_barrier}
use gocudrv.Dispatch.{run}
use gocudrv.Buffer.{Elem, Buffer, Slice, alloc, close}
use gocudrv.Buffer.Offset.{copy_from_at}
use gocudrv.Buffer.View.{View, view, sub_view}
use gocudrv.Buffer.Bounds.{Valid, Checked, copy_from_at_inside}
use gocudrv.Buffer.Windows.{Within, sub_view-Within}

abbrev code_of : Call → ℕ
code_of (Call.mem_free p) = if p == 13 then 700 else 0
code_of _ = 0

-- A driver on which every call succeeds, but the free of address 13.
abbrev logging : Driver (List Call)
logging = record {
  bound = λ _. true;
  call = λ t c w. (record { code = code_of c; value = 4096; second = 0; out = [] }, c ∷ w);
}

abbrev store : Store (List Call)
store = record {
  contexts = λ _. record {
    device = 0;
    raw = 40;
    exec = some (record { thread = 5; is_closed = false });
    copy_exec = none;
    wait_lanes = [];
    sync_active = 0;
    command_err = none;
    closed = false;
  };
  next_thread = 8;
  reusable = [];
  quarantined = [];
  world = [];
}

abbrev numbers : Buffer
numbers = record {
  ctx = 0;
  elem = Elem.int32;
  ptr = 4096;
  length = 100;
  bytes = 400;
  closed = false;
}

abbrev bad : Buffer
bad = record numbers { ptr = 13 }

abbrev numbers_valid : Valid numbers
numbers_valid = record { size = refl; fits = omega arith }

abbrev slice : Slice
slice = record { addr = 70; len = 10 }

copy_from_at_inside_example :
    Checked numbers
      (pos 90)
      10
      (λ e. copy_from_at logging background (some numbers) (pos 90) slice store ≡ (err e, store))
      (copy_from_at logging background (some numbers) (pos 90) slice store
        ≡ run logging 0 background (Call.memcpy_htod 4456 70 40) store)
copy_from_at_inside_example =
    copy_from_at_inside logging background numbers numbers_valid refl (pos 90) slice store

abbrev window : ℕ → ℕ → View
window off n = record { owner = some 3; offset = off; length = n }

abbrev buffers : ℕ → Buffer
buffers _ = numbers

view_run : view buffers (some 3) (pos 20) (pos 50) store ≡ (ok (window 20 50), store)
unfolding view
view_run = refl

window-Within : Within buffers 3 (window 20 50)
window-Within = (refl, omega arith, omega arith)

sub_view_run :
    sub_view buffers (some (window 20 50)) (pos 5) (pos 10) store ≡ (ok (window 25 10), store)
unfolding sub_view
sub_view_run = refl

sub_view-Within_example :
    Within buffers 3 (window 25 10) × (20 ≤ 25) × (25 + 10 ≤ 20 + 50) × (store ≡ store)
sub_view-Within_example =
    sub_view-Within buffers 3 (window 20 50) (window 25 10) (pos 5) (pos 10) store store
      window-Within sub_view_run

abbrev closed_buffers : ℕ → Buffer
closed_buffers _ = record numbers { closed = true }

closed-Within : Within closed_buffers 3 (window 20 10)
closed-Within = (refl, omega arith, omega arith)

abbrev logged : List Call → Store (List Call)
logged w = record store { world = w }

alloc_run :
    alloc logging Elem.int32 (some 0) (pos 100) store
    ≡ (ok numbers, logged (Call.mem_alloc 400 ∷ []))
unfolding alloc do_with submit_with do_ctx mem_alloc invoke check
alloc_run = refl

abbrev context_0 : Option ℕ
context_0 = some 0

abbrev freed : Buffer
freed = record numbers { closed = true }

abbrev after : Store (List Call)
after = logged (Call.mem_free 4096 ∷ [])

close_run : close logging (some numbers) store ≡ (none, some freed, after)
unfolding close do_with submit_with sync_barrier do_wait mem_free invoke check
close_run = refl

close_fails :
    close logging (some bad) store
    ≡ (some (driver_error 700 (some Symbol.mem_free)), some bad, logged (Call.mem_free 13 ∷ []))
unfolding close do_with submit_with sync_barrier do_wait mem_free invoke check
close_fails = refl
