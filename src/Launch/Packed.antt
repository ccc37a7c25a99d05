-- ===== src/Launch/Packed.antt =====
-- cuda/launch.go: arguments that are packed once, updated in place and launched many times.
use gocudrv.Base.{
  ℕ, true, false, ◌||◌, Option, none, some, List, [], if◌then◌else◌, leb_ℤ, ltb_ℤ, ℤ, pos, to_uint,
  load, Mem,
}
use gocudrv.Driver.Errors.{
  Err, panic_error, sentinel, nil_function, nil_stream, stream_closed, nil_kernel_arg, nil_buffer,
  buffer_closed, invalid_arg_size, arg_index_out_of_range, arg_type_mismatch, arg_size_mismatch,
  Result, ok, err,
}
use gocudrv.Driver.{Driver}
use gocudrv.Argpack.{Builder, PackError, returned, index_panic, empty, params, set, set_bytes}
use gocudrv.Context.Exec.{GoContext}
use gocudrv.Context.State.{M}
use gocudrv.Context.Run.{do_job}
use gocudrv.Buffer.{Stream, Elem, elem_size}
use gocudrv.Module.{Module, Function}
use gocudrv.Launch.Config.{LaunchConfig}
use gocudrv.Launch.Args.{
  KernelArg, Objects, Packing, append_all, le_bytes, device_ptr_type, max_raw_arg_bytes, elem_type,
}
use gocudrv.Launch.{Target, default_stream, on_stream, check_launch, launch_call, with_params}

module _ (modules : ℕ → Module) {W : Type 0} (d : Driver W) (objects : Objects) where
  -- `launchPacked` of a function that is not nil
  unfoldable pub launch_packed :
      Function → Target → LaunchConfig → Option Builder → GoContext → M W (Unit {0})
  unfolding check_launch params launch_call
  launch_packed f t cfg none g s = (err (sentinel nil_kernel_arg), s)
  launch_packed f t cfg (some b) g s = elim (check_launch modules f t cfg) [
    | err e ↦ (err e, s)
    | ok m ↦
        with_params (params b).0
          (λ ps. do_job d m.ctx g (launch_call modules d objects false f cfg t ps)) s
  ]

  -- `LaunchPacked` and `LaunchPackedOn`
  unfoldable pub launch_packed_default :
      Option Function → LaunchConfig → Option Builder → GoContext → M W (Unit {0})
  unfolding launch_packed
  launch_packed_default none cfg p g s = (err (sentinel nil_function), s)
  launch_packed_default (some f) cfg p g s = launch_packed f default_stream cfg p g s

  unfoldable pub launch_packed_on :
      Option Function → Option Stream → LaunchConfig → Option Builder → GoContext → M W (Unit {0})
  unfolding launch_packed
  launch_packed_on none stream cfg p g s = (err (sentinel nil_function), s)
  launch_packed_on (some f) none cfg p g s = (err (sentinel nil_stream), s)
  launch_packed_on (some f) (some st) cfg p g s =
      if st.closed
      then (err (sentinel stream_closed), s)
      else launch_packed f (on_stream st) cfg p g s

-- `Pack`: the packed arguments, and the read locks that are left. A panic of `Params` is an error here.
module _ (objects : Objects) where
  abbrev pub new_packed : (ℕ → ℕ) → Packing
  new_packed readers = record {
    builder = record {
      ctx = none;
      packed = empty;
      inline_locks = [];
      lock_count = 0;
      overflow_locks = [];
      snapshot = true;
    };
    readers = readers;
  }

  abbrev packed_of : Option Err × Packing → Result Builder × (ℕ → ℕ)
  packed_of (some e, p) = (err e, p.readers)
  packed_of (none, p) = (
    elim (params p.builder.packed).0 [
      | returned _ ↦ ok (params p.builder.packed).1
      | index_panic ↦ err panic_error
    ],
    p.readers,
  )

  unfoldable pub pack : List (Option KernelArg) → (ℕ → ℕ) → Result Builder × (ℕ → ℕ)
  unfolding append_all params
  pack args readers = packed_of (append_all objects args (new_packed readers))

  abbrev pub pack_error : PackError → Err
  pack_error PackError.index_out_of_range = sentinel arg_index_out_of_range
  pack_error PackError.type_mismatch = sentinel arg_type_mismatch
  pack_error PackError.size_mismatch = sentinel arg_size_mismatch

  abbrev pub update_result : Option PackError × Builder → Option Err × Option Builder
  update_result (none, b) = (none, some b)
  update_result (some e, b) = (some (pack_error e), some b)

  -- `SetPacked`
  unfoldable pub set_packed : Option Builder → ℤ → Elem → ℕ → Option Err × Option Builder
  unfolding set le_bytes
  set_packed none i t v = (some (sentinel nil_kernel_arg), none)
  set_packed (some b) i t v = update_result (set b i (elem_type t) (le_bytes (elem_size t) v))

  -- `SetDevicePtr`
  unfoldable pub set_device_ptr : Option Builder → ℤ → ℕ → Option Err × Option Builder
  unfolding set le_bytes
  set_device_ptr none i ptr = (some (sentinel nil_kernel_arg), none)
  set_device_ptr (some b) i ptr = update_result (set b i device_ptr_type (le_bytes 8 ptr))

  -- `SetPackedBuffer`, whose read lock is given back before the update.
  unfoldable pub set_packed_buffer : Option Builder → ℤ → Option ℕ → Option Err × Option Builder
  unfolding set_device_ptr
  set_packed_buffer none i buf = (some (sentinel nil_kernel_arg), none)
  set_packed_buffer (some b) i none = (some (sentinel nil_buffer), some b)
  set_packed_buffer (some b) i (some n) =
      if (objects.buffers n).closed
      then (some (sentinel buffer_closed), some b)
      else set_device_ptr (some b) i (objects.buffers n).ptr

  -- `SetRaw`
  unfoldable pub set_raw : Option Builder → ℤ → Option Mem → ℤ → Option Err × Option Builder
  unfolding set_bytes
  set_raw none i m size = (some (sentinel nil_kernel_arg), none)
  set_raw (some b) i none size = (some (sentinel nil_kernel_arg), some b)
  set_raw (some b) i (some m) size =
      if leb_ℤ size (pos 0) || ltb_ℤ (pos max_raw_arg_bytes) size
      then (some (sentinel invalid_arg_size), some b)
      else update_result (set_bytes b i (load m 0 (to_uint size)))
