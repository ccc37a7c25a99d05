-- ===== src/Volume/Tests.antt =====
-- Runs of the volume copies and allocation, and the theorems at them.
use gocudrv.Base.{◌≡◌, ◌*◌, refl, false, some, arith, pos}
use gocudrv.Driver.Errors.{ok, err, check}
use gocudrv.Driver.Calls.{invoke}
use gocudrv.Driver.Desc.{Memcpy3d}
use gocudrv.Driver.Memory.{mem_alloc_pitch}
use gocudrv.Context.Exec.{background, do_wait, do_ctx}
use gocudrv.Context.Run.{do_plain, do_with, submit_with}
use gocudrv.Context.Sample.{succeeding, open_store}
use gocudrv.Buffer.{Elem, elem_size, Slice}
use gocudrv.Volume.{Volume, copy_3d, copy_from, copy_to, alloc_volume, make_volume}
use gocudrv.Volume.Bounds.{Valid, Outcomes, CopiesIn, CopiesOut, volume_copies_inside}
use gocudrv.Volume.Allocation.{Sized, alloc_volume-Sized}

-- Two slices of three rows of five 4-byte numbers, at a pitch of 32 bytes.
abbrev cube : Volume
cube = record {
  ctx = 0;
  elem = Elem.int32;
  ptr = 4096;
  pitch = 32;
  width = 5;
  height = 3;
  depth = 2;
  closed = false;
}

cube-Valid : Valid cube
cube-Valid = record {
  rows = omega arith;
  slices = omega arith;
  room = omega arith;
  fits = omega arith;
}

abbrev packed : Slice
packed = record { addr = 64; len = 30 }

volume_copies_inside_example :
    Outcomes cube packed
      (λ e. copy_from succeeding background (some cube) packed open_store ≡ (err e, open_store))
      ((desc : Memcpy3d) × CopiesIn desc cube packed
        × (copy_from succeeding background (some cube) packed open_store
            ≡ copy_3d succeeding 0 background desc open_store))
    × Outcomes cube packed
        (λ e. copy_to succeeding background (some cube) packed open_store ≡ (err e, open_store))
        ((desc : Memcpy3d) × CopiesOut desc cube packed
          × (copy_to succeeding background (some cube) packed open_store
              ≡ copy_3d succeeding 0 background desc open_store))
volume_copies_inside_example =
    volume_copies_inside succeeding background cube cube-Valid refl packed open_store

-- What the driver of the tests makes of the same dimensions.
abbrev made : Volume
made = record cube { pitch = 0 }

alloc_run :
    alloc_volume succeeding Elem.int32 (some 0) (pos 5) (pos 3) (pos 2) open_store
    ≡ (ok made, (alloc_volume succeeding Elem.int32 (some 0) (pos 5) (pos 3) (pos 2) open_store).1)
unfolding alloc_volume make_volume mem_alloc_pitch do_with submit_with do_wait do_ctx invoke check
alloc_run = refl

alloc_volume-Sized_example :
    Sized (pos 5) (pos 3) (pos 2) made
    × (made.elem ≡ Elem.int32)
    × (made.closed ≡ false)
    × (do_plain succeeding 0 background
          (mem_alloc_pitch succeeding
            (made.width * elem_size Elem.int32)
            (made.height * made.depth)
            4)
          open_store
        ≡ (
          ok (made.ptr, made.pitch),
          (alloc_volume succeeding Elem.int32 (some 0) (pos 5) (pos 3) (pos 2) open_store).1,
        ))
alloc_volume-Sized_example =
    alloc_volume-Sized succeeding Elem.int32 0 (pos 5) (pos 3) (pos 2) made open_store
      (alloc_volume succeeding Elem.int32 (some 0) (pos 5) (pos 3) (pos 2) open_store).1 alloc_run
