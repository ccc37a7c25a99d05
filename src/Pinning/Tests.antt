-- ===== src/Pinning/Tests.antt =====
-- Runs of page-locked memory, and the theorems at them.
use gocudrv.Base.{ℕ, ◌+◌, ◌≡◌, refl, true, false, none, some}
use gocudrv.Driver.Errors.{check}
use gocudrv.Driver.Calls.{invoke, mem_free_host}
use gocudrv.Context.Exec.{do_wait}
use gocudrv.Context.Run.{do_with, submit_with, sync_barrier}
use gocudrv.Context.Sample.{succeeding, open_store}
use gocudrv.Buffer.{Elem, Buffer, Stream}
use gocudrv.Closing.{close_once}
use gocudrv.Pinning.{HostBuffer, close_host, register_host}
use gocudrv.Pinning.Lifecycle.{live, closes, pins_follow_registration}

abbrev unpinned : ℕ → ℕ
unpinned q = 0

pins_follow_registration_example :
    (closes succeeding 2 (register_host succeeding Elem.int32 (some 0) 64 8 unpinned open_store)).1
      64
    ≡ unpinned 64
      + live
          (closes succeeding 2
            (register_host succeeding Elem.int32 (some 0) 64 8 unpinned open_store)).0
          64
pins_follow_registration_example =
    pins_follow_registration succeeding Elem.int32 (some 0) 64 8 unpinned open_store 2 64

abbrev host : HostBuffer
host = record { ctx = 0; ptr = 64; length = 100; bytes = 400; closed = false }

abbrev spent : HostBuffer
spent = record { ctx = 0; ptr = 64; length = 100; bytes = 400; closed = true }

abbrev buffer : Buffer
buffer = record {
  ctx = 0;
  elem = Elem.int32;
  ptr = 4096;
  length = 100;
  bytes = 400;
  closed = false;
}

abbrev stream : Stream
stream = record { ctx = 0; raw = 9; closed = false }

close_run :
    close_host succeeding (some host) open_store
    ≡ (none, some spent, (close_host succeeding (some host) open_store).2)
unfolding close_host close_once mem_free_host do_with submit_with sync_barrier do_wait invoke check
close_run = refl
