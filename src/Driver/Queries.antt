-- ===== src/Driver/Queries.antt =====
-- The wrappers of cudaresult for devices, peers, memory and events shared between processes, occupancy, kernel
-- attributes, and the module calls that take options or find a global (device.go, peer.go, ipc.go, occupancy.go,
-- function.go, module.go, link.go). An `int32` that the driver writes is read with its sign.
use gocudrv.Base.{ℕ, ℤ, Bytes, Bool, not, List, ◌==◌, if◌then◌else◌, length}
use gocudrv.Argpack.{int32}
use gocudrv.Driver.Errors.{err, invalid_value}
use gocudrv.Driver.{Call, Reply, Driver, Cmd}
use gocudrv.Driver.Symbols.{symbol}
use gocudrv.Driver.Calls.{invoke, missing}

module _ {W : Type 0} (d : Driver W) where
  unfoldable pub device_count : Cmd W ℤ
  unfolding invoke
  device_count = invoke d Call.device_get_count (λ r. int32 r.value)

  unfoldable pub driver_version : Cmd W ℤ
  unfolding invoke
  driver_version = invoke d Call.driver_get_version (λ r. int32 r.value)

  unfoldable pub get_device : ℕ → Cmd W ℕ
  unfolding invoke
  get_device ordinal = invoke d (Call.device_get ordinal) (λ r. r.value)

  unfoldable pub device_total_mem : ℕ → Cmd W ℕ
  unfolding invoke
  device_total_mem dev = invoke d (Call.device_total_mem dev) (λ r. r.value)

  unfoldable pub device_attribute : ℤ → ℕ → Cmd W ℤ
  unfolding invoke
  device_attribute attr dev = invoke d (Call.device_get_attribute attr dev) (λ r. int32 r.value)

  unfoldable pub device_can_access_peer : ℕ → ℕ → Cmd W Bool
  unfolding invoke
  device_can_access_peer dev peer =
      invoke d (Call.device_can_access_peer dev peer) (λ r. not (r.value == 0))

  unfoldable pub ctx_enable_peer_access : ℕ → Cmd W (Unit {0})
  unfolding invoke
  ctx_enable_peer_access peer = invoke d (Call.ctx_enable_peer_access peer 0) (λ _. tt)

  unfoldable pub ctx_disable_peer_access : ℕ → Cmd W (Unit {0})
  unfolding invoke
  ctx_disable_peer_access peer = invoke d (Call.ctx_disable_peer_access peer) (λ _. tt)

  unfoldable pub memcpy_peer : ℕ → ℕ → ℕ → ℕ → ℕ → Cmd W (Unit {0})
  unfolding invoke
  memcpy_peer dst dst_ctx src src_ctx bytes =
      invoke d (Call.memcpy_peer dst dst_ctx src src_ctx bytes) (λ _. tt)

  unfoldable pub pointer_get_attribute : ℕ → ℕ → Cmd W ℕ
  unfolding invoke
  pointer_get_attribute attr ptr = invoke d (Call.pointer_get_attribute attr ptr) (λ r. r.value)

  unfoldable pub ipc_get_mem_handle : ℕ → Cmd W Bytes
  unfolding invoke
  ipc_get_mem_handle ptr = invoke d (Call.ipc_get_mem_handle ptr) (λ r. r.out)

  unfoldable pub ipc_open_mem_handle : Bytes → ℕ → Cmd W ℕ
  unfolding invoke
  ipc_open_mem_handle h flags = invoke d (Call.ipc_open_mem_handle h flags) (λ r. r.value)

  unfoldable pub ipc_close_mem_handle : ℕ → Cmd W (Unit {0})
  unfolding invoke
  ipc_close_mem_handle ptr = invoke d (Call.ipc_close_mem_handle ptr) (λ _. tt)

  unfoldable pub ipc_get_event_handle : ℕ → Cmd W Bytes
  unfolding invoke
  ipc_get_event_handle event = invoke d (Call.ipc_get_event_handle event) (λ r. r.out)

  unfoldable pub ipc_open_event_handle : Bytes → Cmd W ℕ
  unfolding invoke
  ipc_open_event_handle h = invoke d (Call.ipc_open_event_handle h) (λ r. r.value)

  unfoldable pub occupancy_max_active_blocks : ℕ → ℕ → ℕ → Cmd W ℤ
  unfolding invoke
  occupancy_max_active_blocks fn block_size smem =
      invoke d (Call.occupancy_max_active_blocks fn block_size smem) (λ r. int32 r.value)

  -- The least grid size, then the block size.
  unfoldable pub occupancy_max_potential_block_size : ℕ → ℕ → ℕ → Cmd W (ℤ × ℤ)
  unfolding invoke
  occupancy_max_potential_block_size fn smem limit =
      invoke d (Call.occupancy_max_potential_block_size fn smem limit)
        (λ r. (int32 r.value, int32 r.second))

  unfoldable pub func_set_attribute : ℕ → ℤ → ℕ → Cmd W (Unit {0})
  unfolding invoke
  func_set_attribute fn attr value = invoke d (Call.func_set_attribute fn attr value) (λ _. tt)

  unfoldable pub func_get_attribute : ℕ → ℤ → Cmd W ℤ
  unfolding invoke
  func_get_attribute fn attr = invoke d (Call.func_get_attribute fn attr) (λ r. int32 r.value)

  -- The address of the global, then its size in bytes.
  unfoldable pub module_get_global : ℕ → Bytes → Cmd W (ℕ × ℕ)
  unfolding invoke
  module_get_global m name = invoke d (Call.module_get_global m name) (λ r. (r.value, r.second))

  -- A call with options and their values, which have to be as many.
  abbrev with_options : List ℕ → List ℕ → Call → (Reply → ℕ) → Cmd W ℕ
  with_options options values c read t w =
      if d.bound (symbol c)
      then if length values == length options then invoke d c read t w else (err invalid_value, w)
      else (err (missing (symbol c)), w)

  unfoldable pub module_load_data_ex : Bytes → List ℕ → List ℕ → Cmd W ℕ
  unfolding invoke
  module_load_data_ex image options values =
      with_options options values (Call.module_load_data_ex image options values) (λ r. r.value)

  unfoldable pub link_create : List ℕ → List ℕ → Cmd W ℕ
  unfolding invoke
  link_create options values =
      with_options options values (Call.link_create options values) (λ r. r.value)
