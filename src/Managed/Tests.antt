-- ===== src/Managed/Tests.antt =====
-- Runs of the allocations, and the theorem at them.
use gocudrv.Base.{◌≡◌, refl, some, pos}
use gocudrv.Driver.Errors.{ok, check}
use gocudrv.Driver.Calls.{invoke}
use gocudrv.Driver.Memory.{mem_alloc_managed}
use gocudrv.Context.Exec.{do_wait}
use gocudrv.Context.Run.{do_with, submit_with}
use gocudrv.Context.Sample.{succeeding, open_store}
use gocudrv.Buffer.{Elem}
use gocudrv.Managed.{alloc_managed}
use gocudrv.Managed.Lifecycle.{Sized, managed_memory, allocate, request, allocations-Sized}

allocation_run : allocate succeeding (managed_memory (some 0)) Elem.float64 (pos 100) open_store ≡ (
  ok (4096, 100, 800),
  (allocate succeeding (managed_memory (some 0)) Elem.float64 (pos 100) open_store).1,
)
unfolding allocate alloc_managed mem_alloc_managed do_with submit_with do_wait invoke check
allocation_run = refl

allocations-Sized_example :
    Sized Elem.float64 (pos 100) 100 800
    × (request succeeding (managed_memory (some 0)) 800 open_store ≡ (
      ok 4096,
      (allocate succeeding (managed_memory (some 0)) Elem.float64 (pos 100) open_store).1,
    ))
allocations-Sized_example =
    allocations-Sized succeeding (managed_memory (some 0)) Elem.float64 (pos 100) 4096 100 800
      open_store (allocate succeeding (managed_memory (some 0)) Elem.float64 (pos 100) open_store).1
      allocation_run
