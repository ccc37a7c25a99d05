-- ===== src/Launch/Tests.antt =====
-- Runs of the launches, and the theorems at them.
use gocudrv.Base.{
  ◌≡◌, ◌+◌, ◌⊎◌, refl, true, false, Option, none, some, List, [], ◌∷◌, map, ℕ, ℤ, pos, length,
  if◌then◌else◌, arith,
}
use gocudrv.Driver.Errors.{ok}
use gocudrv.Argpack.{Builder, Pointer, empty, params}
use gocudrv.Argpack.Params.{read_all}
use gocudrv.Argpack.Packing.{contents}
use gocudrv.Context.Exec.{background}
use gocudrv.Context.Run.{do_job}
use gocudrv.Context.Sample.{succeeding, open_store}
use gocudrv.Buffer.{Elem}
use gocudrv.Module.{Module, Function}
use gocudrv.Launch.{default_stream, new_state, check_launch, launch_call, launch}
use gocudrv.Launch.Config.{LaunchConfig, no_config, launch_config_1d, line, valid}
use gocudrv.Launch.Args.{
  KernelArg, Objects, texture_arg, append_object, append_locked, buffer_arg, value_arg, Packing,
  append_all, append_kernel_arg, holds_lock, is_in, add_lock,
}
use gocudrv.Launch.Locks.{mentions, launch_locks_once, launch_gives_back}
use gocudrv.Launch.Contents.{all_bytes, launch-contents}
use gocudrv.Locks.{all_blocked}
use gocudrv.Driver.{Driver, Call}
use gocudrv.Driver.Errors.{check}
use gocudrv.Driver.Calls.{invoke}
use gocudrv.Driver.Queries.{occupancy_max_potential_block_size}
use gocudrv.Context.Exec.{do_ctx}
use gocudrv.Context.State.{Store}
use gocudrv.Context.Run.{do_with, submit_with}
use gocudrv.Launch.Occupancy.{suggested_block_size, config_for, suggested_config_1d}
use gocudrv.Launch.Occupancy.Suggested.{suggested_config_1d-Covers}
use gocudrv.Launch.Deadlock.{crossed, between, opposite_launches_stuck}
use gocudrv.Launch.Updates.{value_update, launch_update, signature, allowed, apply_updates}
use gocudrv.Launch.Updates.Types.{updates_keep_types}
use gocudrv.Launch.Shape.{Coverable, Covers, launch_config_1d_lem}

abbrev objects : Objects
objects = record {
  buffers = λ n. record {
    ctx = 0;
    elem = Elem.int32;
    ptr = 4096;
    length = 100;
    bytes = 400;
    closed = false;
  };
  textures = λ n. record { ctx = 0; handle = 50; closed = false };
  surfaces = λ n. record { ctx = 0; handle = 60; closed = false };
}

abbrev modules : ℕ → Module
modules n = record { ctx = 0; raw = 30; closed = false }

abbrev kernel : Function
kernel = record { owner = some 2; raw = 31; name = 107 ∷ [] }

-- One buffer twice, a texture with the same number, and a number.
abbrev args : List (Option KernelArg)
args =
    some (buffer_arg (some 3))
    ∷ some (texture_arg (some 3))
    ∷ some (value_arg Elem.int32 7)
    ∷ some (buffer_arg (some 3))
    ∷ []

abbrev readers : ℕ → ℕ
readers n = 1

abbrev packing : Packing
packing = (append_all objects args (new_state 0 empty readers)).1

packed_run : append_all objects args (new_state 0 empty readers) ≡ (none, packing)
unfolding append_all append_kernel_arg append_locked append_object holds_lock is_in add_lock
packed_run = refl

launch_locks_once_example : packing.readers 9 ≡ readers 9 + (if mentions 9 args then 1 else 0)
launch_locks_once_example = launch_locks_once objects args 0 empty readers packing 9 packed_run

launch_gives_back_example :
    (launch modules succeeding objects true kernel default_stream
        (line 4 256)
        args
        background
        empty
        readers
        open_store).1
      9
    ≡ readers 9
launch_gives_back_example =
    launch_gives_back succeeding modules objects true kernel default_stream (line 4 256) args
      background empty readers open_store 9

checked_run : check_launch modules kernel default_stream (line 4 256) ≡ ok (modules 2)
unfolding check_launch
checked_run = refl

launch-contents_example :
    (ps : List Pointer) × ((launch modules succeeding objects false kernel default_stream
        (line 4 256)
        args
        background
        empty
        readers
        open_store).0
      ≡ do_job succeeding 0 background
          (launch_call modules succeeding objects false kernel
            (line 4 256)
            default_stream
            (some ps))
          open_store)
    × (length ps ≡ length args)
    × (read_all
          (params packing.builder.packed).1
          ps
          (map length (contents (all_bytes objects args)))
        ≡ map some (contents (all_bytes objects args)))
launch-contents_example =
    launch-contents succeeding modules objects false kernel default_stream (line 4 256) args
      background empty readers open_store (modules 2) packing checked_run packed_run (omega arith)
      (omega arith)

launch_config_1d_lem_example :
    (Coverable (pos 1000) (pos 256)
      × Covers (pos 1000) (pos 256) (launch_config_1d (pos 1000) (pos 256)))
    ⊎ ((¬ Coverable (pos 1000) (pos 256))
        × (launch_config_1d (pos 1000) (pos 256) ≡ no_config)
        × (valid (launch_config_1d (pos 1000) (pos 256)) ≡ false))
launch_config_1d_lem_example = launch_config_1d_lem (pos 1000) (pos 256)

rounded_up : launch_config_1d (pos 1000) (pos 256) ≡ line 4 256
unfolding launch_config_1d
rounded_up = refl

-- A buffer, and a number of 4 bytes, packed; then the number is replaced, once with the wrong type.
abbrev packed : Builder
packed = packing.builder.packed

updates_keep_types_example :
    (signature
        (apply_updates objects
          (value_update (pos 2) Elem.int32 8
            ∷ value_update (pos 2) Elem.float32 8
            ∷ launch_update
            ∷ [])
          packed).1
      ≡ signature packed)
    × ((apply_updates objects
          (value_update (pos 2) Elem.int32 8
            ∷ value_update (pos 2) Elem.float32 8
            ∷ launch_update
            ∷ [])
          packed).0
        ≡ map (allowed objects (signature packed)) (
            value_update (pos 2) Elem.int32 8
            ∷ value_update (pos 2) Elem.float32 8
            ∷ launch_update
            ∷ []))
updates_keep_types_example =
    updates_keep_types objects
      (value_update (pos 2) Elem.int32 8 ∷ value_update (pos 2) Elem.float32 8 ∷ launch_update ∷ [])
      packed

opposite_launches_stuck_example :
    all_blocked
      (crossed (between objects 0 empty readers 1 2) (between objects 0 empty readers 2 1) 3 6)
      (crossed (between objects 0 empty readers 1 2) (between objects 0 empty readers 2 1) 3 6)
    ≡ true
opposite_launches_stuck_example =
    opposite_launches_stuck objects 0 empty readers 1 2 refl refl refl refl (λ e. omega (arith, e))

-- A driver that suggests 256 threads for a block.
abbrev tuned : Driver (List Call)
tuned = record {
  bound = λ _. true;
  call = λ t c w. (record { code = 0; value = 4; second = 256; out = [] }, c ∷ w);
}

abbrev suggested : LaunchConfig
suggested = record (line 4 256) { shared_mem_bytes = 64 }

abbrev asked : Store (List Call)
asked = record open_store { world = Call.occupancy_max_potential_block_size 31 64 0 ∷ [] }

suggested_run :
    suggested_config_1d modules tuned (some kernel) (pos 1000) (pos 64) open_store
    ≡ (ok suggested, asked)
unfolding suggested_config_1d suggested_block_size config_for launch_config_1d
    occupancy_max_potential_block_size do_with submit_with do_ctx invoke check
suggested_run = refl

suggested_config_1d-Covers_example :
    (grid : ℤ) × (block : ℤ) × (suggested_block_size modules tuned
        (some kernel)
        (pos 64)
        (pos 0)
        open_store
      ≡ (ok (grid, block), asked))
    × Covers (pos 1000) block suggested
    × (suggested.shared_mem_bytes ≡ 64)
suggested_config_1d-Covers_example =
    suggested_config_1d-Covers modules tuned (some kernel) (pos 1000) (pos 64) suggested open_store
      asked suggested_run
