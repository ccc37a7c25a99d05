-- ===== src/Launch/Occupancy.antt =====
-- cuda/occupancy.go, cuda/funcattr.go and `MaxCooperativeGridBlocks` of cuda/coop.go: what the driver says of a kernel.
pub mod Suggested
use gocudrv.Base.{
  ℕ, ◌%◌, Bool, true, false, ◌||◌, not, Option, none, some, ltb, ℤ, pos, ltb_ℤ, leb_ℤ, ◌*ℤ◌,
  to_uint,
}
use gocudrv.Driver.Errors.{
  sentinel, nil_function, nil_module, module_closed, invalid_block_size, invalid_length,
  invalid_launch_config, Result, ok, err,
}
use gocudrv.Driver.{Driver}
use gocudrv.Driver.Queries.{
  occupancy_max_active_blocks, occupancy_max_potential_block_size, func_get_attribute,
  func_set_attribute,
}
use gocudrv.Context.Exec.{background}
use gocudrv.Context.State.{Store, M, ◌>>=◌, ◌>>◌, pure, fail}
use gocudrv.Context.Run.{do_plain}
use gocudrv.Buffer.{reject_if, deref}
use gocudrv.Module.{Module, Function}
use gocudrv.Device.{Device, attribute}
use gocudrv.Launch.Config.{LaunchConfig, launch_config_1d, valid}

-- `math.MaxInt32`
abbrev pub max_int32 : ℤ
max_int32 = pos 2147483647

-- `FuncAttrMaxDynamicSharedSizeBytes` and `DeviceAttributeMultiprocessorCount`
abbrev max_dynamic_shared_size : ℤ
max_dynamic_shared_size = pos 8

abbrev multiprocessor_count : ℤ
multiprocessor_count = pos 16

module _ (modules : ℕ → Module) {W : Type 0} (d : Driver W) where
  -- The module of a function: it must be there and open.
  abbrev pub open_module : Function → M W Module
  open_module f = do
    i ← deref f.owner nil_module
    reject_if (modules i).closed module_closed
    pure (modules i)

  -- `MaxActiveBlocksPerSM`
  unfoldable pub max_active_blocks : Option Function → ℤ → ℤ → M W ℤ
  max_active_blocks fn block_size smem = do
    f ← deref fn nil_function
    reject_if (leb_ℤ block_size (pos 0) || ltb_ℤ max_int32 block_size) invalid_block_size
    reject_if (ltb_ℤ smem (pos 0)) invalid_length
    m ← open_module f
    do_plain d m.ctx background
        (occupancy_max_active_blocks d f.raw (to_uint block_size) (to_uint smem))

  -- `SuggestedBlockSize`: the least grid size and the block size
  unfoldable pub suggested_block_size : Option Function → ℤ → ℤ → M W (ℤ × ℤ)
  suggested_block_size fn smem limit = do
    f ← deref fn nil_function
    reject_if (ltb_ℤ smem (pos 0) || (ltb_ℤ limit (pos 0) || ltb_ℤ max_int32 limit)) invalid_length
    m ← open_module f
    do_plain d m.ctx background
        (occupancy_max_potential_block_size d f.raw (to_uint smem) (to_uint limit))

  -- `SuggestedConfig1D` for the block size that the driver suggests: the shared memory is cut to 32 bits.
  unfoldable pub config_for : ℤ → ℤ → ℤ → M W LaunchConfig
  unfolding launch_config_1d
  config_for n smem block_size = do
    reject_if (leb_ℤ block_size (pos 0)) invalid_launch_config
    reject_if (not (valid (launch_config_1d n block_size))) invalid_launch_config
    pure (record (launch_config_1d n block_size) { shared_mem_bytes = to_uint smem % 4294967296 })

  -- `SuggestedConfig1D`
  unfoldable pub suggested_config_1d : Option Function → ℤ → ℤ → M W LaunchConfig
  unfolding suggested_block_size config_for
  suggested_config_1d fn n smem = do
    reject_if (leb_ℤ n (pos 0)) invalid_launch_config
    sizes ← suggested_block_size fn smem (pos 0)
    config_for n smem sizes.1

  -- `Attribute`
  unfoldable pub function_attribute : Option Function → ℤ → M W ℤ
  function_attribute fn attr = do
    f ← deref fn nil_function
    m ← open_module f
    do_plain d m.ctx background (func_get_attribute d f.raw attr)

  -- `SetAttribute`
  unfoldable pub set_attribute : Option Function → ℤ → ℤ → M W (Unit {0})
  set_attribute fn attr value = do
    f ← deref fn nil_function
    reject_if (ltb_ℤ value (pos 0) || ltb_ℤ max_int32 value) invalid_length
    m ← open_module f
    do_plain d m.ctx background (func_set_attribute d f.raw attr (to_uint value))

  -- `SetMaxDynamicSharedMemory`
  unfoldable pub set_max_dynamic_shared_memory : Option Function → ℤ → M W (Unit {0})
  unfolding set_attribute
  set_max_dynamic_shared_memory fn bytes = set_attribute fn max_dynamic_shared_size bytes

  -- The number of multiprocessors, asked on the calling thread, from the device of the function's Context.
  abbrev multiprocessors : Option (Driver W) → Device → ℕ → M W ℤ
  multiprocessors driver x thread s =
      let (r, w) = attribute driver (some x) multiprocessor_count thread s.world in
      (r, record s { world = w })

  -- `MaxCooperativeGridBlocks`
  unfoldable pub max_cooperative_grid_blocks :
      Option (Driver W) → Device → ℕ → Option Function → ℤ → ℤ → M W ℤ
  unfolding max_active_blocks attribute
  max_cooperative_grid_blocks driver x thread fn block_size smem = do
    per_sm ← max_active_blocks fn block_size smem
    sm ← multiprocessors driver x thread
    pure (per_sm *ℤ sm)
