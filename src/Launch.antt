-- ===== src/Launch.antt =====
-- cuda/launch.go and cuda/coop.go: launches. The argument state comes out of its pool reset, and every
-- way out of a launch puts it back, which releases the locks. The read locks of the module and of the
-- stream are taken and released around the call as well; only those of the arguments are counted.
pub mod Config
pub mod Args
pub mod Packed
pub mod Locks
pub mod Contents
pub mod Shape
pub mod Occupancy
pub mod Deadlock
pub mod Updates
mod Tests
use gocudrv.Base.{
  ℕ, Bool, true, false, ◌||◌, not, Option, none, some, List, [], ◌∷◌, ◌==◌, if◌then◌else◌, ltb,
  leb_ℤ, ltb_ℤ, ℤ, pos, to_uint, load, Mem,
}
use gocudrv.Driver.Errors.{
  Err, Sentinel, sentinel, nil_function, nil_stream, stream_closed, invalid_launch_config,
  nil_module, context_mismatch, module_closed, nil_kernel_arg, nil_buffer, buffer_closed,
  invalid_arg_size, arg_index_out_of_range, arg_type_mismatch, arg_size_mismatch, Result, ok, err,
  panic_error,
}
use gocudrv.Driver.{Driver, Cmd}
use gocudrv.Driver.Work.{launch_kernel, launch_cooperative_kernel}
use gocudrv.Argpack.{
  Builder, Pointer, Outcome, returned, index_panic, PackError, empty, reset, params, set, set_bytes,
}
use gocudrv.Context.Exec.{GoContext}
use gocudrv.Context.State.{Store, M}
use gocudrv.Context.Run.{do_job}
use gocudrv.Buffer.{Buffer, Stream, Elem, elem_size}
use gocudrv.Module.{Module, Function}
use gocudrv.Launch.Config.{LaunchConfig, valid}
use gocudrv.Launch.Args.{
  KernelArg, Objects, ArgBuilder, Packing, append_all, release, le_bytes, device_ptr_type,
  max_raw_arg_bytes, elem_type,
}

-- The stream that a launch goes to: its handle, and its Context unless it is the default stream.
pub record Target : Type 0 where
  pub raw : ℕ
  pub ctx : Option ℕ

abbrev pub default_stream : Target
default_stream = record { raw = 0; ctx = none }

abbrev pub on_stream : Stream → Target
on_stream st = record { raw = st.raw; ctx = some st.ctx }

-- `newLaunchArgState`, with the builder as it lay in the pool after its `Reset`.
abbrev pub new_state : ℕ → Builder → (ℕ → ℕ) → Packing
new_state c b readers = record {
  builder = record {
    ctx = some c;
    packed = reset b;
    inline_locks = [];
    lock_count = 0;
    overflow_locks = [];
    snapshot = false;
  };
  readers = readers;
}

module _ {W : Type 0} where
  -- A driver call on the pointers of `Params`. A panic leaves the method that called it: here it is
  -- its error.
  abbrev pub with_params : Outcome → (Option (List Pointer) → M W (Unit {0})) → M W (Unit {0})
  with_params (returned ps) k s = k ps s
  with_params index_panic k s = (err panic_error, s)

module _ (modules : ℕ → Module) where
  abbrev mismatch : Option ℕ → Module → Bool
  mismatch none m = false
  mismatch (some c) m = not (c == m.ctx)

  -- The checks that `launch` and `launchPacked` share, in their order from the shape of the launch on.
  unfoldable pub check_launch : Function → Target → LaunchConfig → Result Module
  check_launch f t cfg =
      if not (valid cfg) then err (sentinel invalid_launch_config) else elim f.owner [
        | none ↦ err (sentinel nil_module)
        | some i ↦
            if mismatch t.ctx (modules i)
            then err (sentinel context_mismatch)
            else if (modules i).closed
            then err (sentinel module_closed)
            else ok (modules i)
      ]

  module _ {W : Type 0} (d : Driver W) (objects : Objects) where
    -- `launchKernel`
    unfoldable pub launch_call :
        Bool → Function → LaunchConfig → Target → Option (List Pointer) → Cmd W (Unit {0})
    launch_call true f cfg t ps = launch_cooperative_kernel d f.raw cfg t.raw ps
    launch_call false f cfg t ps = launch_kernel d f.raw cfg t.raw ps

    -- `launch` from the packed arguments on, with the read locks that are left.
    unfoldable pub submit_launch :
        Bool
        → Function
        → Target
        → LaunchConfig
        → GoContext
        → ℕ
        → Option Err × Packing
        → Store W
        → (Result (Unit {0}) × Store W) × (ℕ → ℕ)
    unfolding release params launch_call
    submit_launch coop f t cfg g c (some e, p) s = ((err e, s), (release p).readers)
    submit_launch coop f t cfg g c (none, p) s = (
      with_params (params p.builder.packed).0 (λ ps. do_job d c g (launch_call coop f cfg t ps)) s,
      (release p).readers,
    )

    -- `launch` of a function that is not nil; `readers` are the read locks that are held on the objects.
    abbrev pub launch_checked :
        Bool
        → Function
        → Target
        → LaunchConfig
        → List (Option KernelArg)
        → GoContext
        → Builder
        → (ℕ → ℕ)
        → Store W
        → Result Module
        → (Result (Unit {0}) × Store W) × (ℕ → ℕ)
    launch_checked coop f t cfg args g pooled readers s (err e) = ((err e, s), readers)
    launch_checked coop f t cfg args g pooled readers s (ok m) =
        submit_launch coop f t cfg g m.ctx
          (append_all objects args (new_state m.ctx pooled readers)) s

    unfoldable pub launch :
        Bool
        → Function
        → Target
        → LaunchConfig
        → List (Option KernelArg)
        → GoContext
        → Builder
        → (ℕ → ℕ)
        → Store W
        → (Result (Unit {0}) × Store W) × (ℕ → ℕ)
    unfolding check_launch
    launch coop f t cfg args g pooled readers s =
        launch_checked coop f t cfg args g pooled readers s (check_launch f t cfg)

    -- `Launch`, `LaunchOn` and their cooperative forms.
    unfoldable pub launch_default :
        Bool
        → Option Function
        → LaunchConfig
        → List (Option KernelArg)
        → GoContext
        → Builder
        → (ℕ → ℕ)
        → Store W
        → (Result (Unit {0}) × Store W) × (ℕ → ℕ)
    unfolding launch
    launch_default coop none cfg args g pooled readers s =
        ((err (sentinel nil_function), s), readers)
    launch_default coop (some f) cfg args g pooled readers s =
        launch coop f default_stream cfg args g pooled readers s

    unfoldable pub launch_on :
        Bool
        → Option Function
        → Option Stream
        → LaunchConfig
        → List (Option KernelArg)
        → GoContext
        → Builder
        → (ℕ → ℕ)
        → Store W
        → (Result (Unit {0}) × Store W) × (ℕ → ℕ)
    unfolding launch
    launch_on coop none stream cfg args g pooled readers s =
        ((err (sentinel nil_function), s), readers)
    launch_on coop (some f) none cfg args g pooled readers s =
        ((err (sentinel nil_stream), s), readers)
    launch_on coop (some f) (some st) cfg args g pooled readers s =
        if st.closed
        then ((err (sentinel stream_closed), s), readers)
        else launch coop f (on_stream st) cfg args g pooled readers s
