-- ===== src/Driver.antt =====
-- The CUDA driver as the code sees it: the entry points of cudasys that cudaresult wraps. The driver
-- itself is not part of the repository: it is a parameter, a function of the calling thread, the call
-- and the state of the world. Device and host addresses, handles and streams are numbers.
pub mod Errors
pub mod Desc
pub mod Symbols
pub mod Calls
pub mod Work
pub mod Memory
pub mod Objects
pub mod Queries
use gocudrv.Argpack.{Pointer}
use gocudrv.Launch.Config.{LaunchConfig}
use gocudrv.Base.{ℕ, ℤ, List, Bytes, Bool, true, false, Option, none, some, ◌==◌, if◌then◌else◌}
use Errors.{Err, Symbol, Result, ok, err}
use Errors
use Desc.{Memcpy2d, Memcpy3d}

-- A call with the arguments that the wrapper passes.
pub data Call : Type 0 where
  primary_ctx_retain : ℕ → Call
  primary_ctx_release : ℕ → Call
  ctx_set_current : ℕ → Call
  mem_get_info : Call
  mem_alloc : ℕ → Call
  mem_free : ℕ → Call
  mem_alloc_async : ℕ → ℕ → Call
  mem_free_async : ℕ → ℕ → Call
  mem_alloc_host : ℕ → Call
  mem_free_host : ℕ → Call
  memcpy_htod : ℕ → ℕ → ℕ → Call
  memcpy_dtoh : ℕ → ℕ → ℕ → Call
  memcpy_dtod : ℕ → ℕ → ℕ → Call
  memcpy_htod_async : ℕ → ℕ → ℕ → ℕ → Call
  memcpy_dtoh_async : ℕ → ℕ → ℕ → ℕ → Call
  memcpy_dtod_async : ℕ → ℕ → ℕ → ℕ → Call
  memset_d8 : ℕ → ℕ → ℕ → Call
  memset_d16 : ℕ → ℕ → ℕ → Call
  memset_d32 : ℕ → ℕ → ℕ → Call
  memset_d8_async : ℕ → ℕ → ℕ → ℕ → Call
  memset_d16_async : ℕ → ℕ → ℕ → ℕ → Call
  memset_d32_async : ℕ → ℕ → ℕ → ℕ → Call
  mem_granularity : ℕ → ℕ → Call
  mem_create : ℕ → ℕ → Call
  mem_address_reserve : ℕ → ℕ → Call
  mem_map : ℕ → ℕ → ℕ → Call
  mem_set_access : ℕ → ℕ → ℕ → Call
  mem_unmap : ℕ → ℕ → Call
  mem_address_free : ℕ → ℕ → Call
  mem_release : ℕ → Call
  ctx_synchronize : Call
  ctx_stream_priority_range : Call
  stream_create : ℕ → Call
  stream_create_with_priority : ℕ → ℤ → Call
  stream_destroy : ℕ → Call
  stream_synchronize : ℕ → Call
  stream_query : ℕ → Call
  stream_wait_event : ℕ → ℕ → ℕ → Call
  event_create : ℕ → Call
  event_destroy : ℕ → Call
  event_record : ℕ → ℕ → Call
  event_query : ℕ → Call
  event_synchronize : ℕ → Call
  event_elapsed_time : ℕ → ℕ → Call
  module_load_data : Bytes → Call
  module_unload : ℕ → Call
  module_get_function : ℕ → Bytes → Call
  launch_kernel : ℕ → LaunchConfig → ℕ → Option (List Pointer) → Call
  launch_cooperative_kernel : ℕ → LaunchConfig → ℕ → Option (List Pointer) → Call
  launch_host_func : ℕ → ℕ → ℕ → Call
  mem_alloc_managed : ℕ → ℕ → Call
  mem_prefetch_async : ℕ → ℕ → ℤ → ℕ → Call
  mem_advise : ℕ → ℕ → ℤ → ℕ → Call
  mem_host_register : ℕ → ℕ → ℕ → Call
  mem_host_unregister : ℕ → Call
  default_mem_pool : ℕ → Call
  mem_pool_get : ℕ → ℕ → Call
  mem_pool_set : ℕ → ℕ → ℕ → Call
  mem_alloc_from_pool_async : ℕ → ℕ → ℕ → Call
  mem_alloc_pitch : ℕ → ℕ → ℕ → Call
  memcpy_2d : Memcpy2d → Call
  memcpy_2d_async : Memcpy2d → ℕ → Call
  array_create : ℕ → ℕ → ℕ → Call
  array_3d_create : ℕ → ℕ → ℕ → ℕ → Call
  array_destroy : ℕ → Call
  tex_object_create : ℕ → ℕ → ℕ → ℕ → Call
  tex_object_destroy : ℕ → Call
  surf_object_create : ℕ → Call
  surf_object_destroy : ℕ → Call
  memcpy_3d : Memcpy3d → Call
  memcpy_3d_async : Memcpy3d → ℕ → Call
  stream_begin_capture : ℕ → ℕ → Call
  stream_end_capture : ℕ → Call
  graph_instantiate : ℕ → ℕ → Call
  graph_launch : ℕ → ℕ → Call
  graph_destroy : ℕ → Call
  graph_exec_update : ℕ → ℕ → Call
  graph_exec_destroy : ℕ → Call
  link_create : List ℕ → List ℕ → Call
  link_add_data : ℕ → ℕ → Bytes → Option Bytes → Call
  link_complete : ℕ → Call
  link_destroy : ℕ → Call
  ipc_get_mem_handle : ℕ → Call
  ipc_open_mem_handle : Bytes → ℕ → Call
  ipc_close_mem_handle : ℕ → Call
  ipc_get_event_handle : ℕ → Call
  ipc_open_event_handle : Bytes → Call
  device_can_access_peer : ℕ → ℕ → Call
  ctx_enable_peer_access : ℕ → ℕ → Call
  ctx_disable_peer_access : ℕ → Call
  memcpy_peer : ℕ → ℕ → ℕ → ℕ → ℕ → Call
  pointer_get_attribute : ℕ → ℕ → Call
  occupancy_max_active_blocks : ℕ → ℕ → ℕ → Call
  occupancy_max_potential_block_size : ℕ → ℕ → ℕ → Call
  func_set_attribute : ℕ → ℤ → ℕ → Call
  func_get_attribute : ℕ → ℤ → Call
  module_get_global : ℕ → Bytes → Call
  module_load_data_ex : Bytes → List ℕ → List ℕ → Call
  device_get_count : Call
  driver_get_version : Call
  device_get : ℕ → Call
  device_get_name : ℕ → ℕ → Call
  device_total_mem : ℕ → Call
  device_get_attribute : ℤ → ℕ → Call
  device_get_pci_bus_id : ℕ → ℕ → Call
  device_get_uuid : ℕ → Call

-- What a call returns: the result code, and what it writes through its out parameters: up to two
-- values, and the contents of a buffer.
pub record Reply : Type 0 where
  pub code : ℕ
  pub value : ℕ
  pub second : ℕ
  pub out : Bytes

-- A bound driver: which symbols were found, and what a call from a thread does.
pub record Driver (W : Type 0) : Type 0 where
  pub bound : Symbol → Bool
  pub call : ℕ → Call → W → Reply × W

-- A function that runs on a pinned thread: it takes the thread's number and the world.
abbrev pub Cmd : Type 0 → Type 0 → Type 0
Cmd W A = ℕ → W → Result A × W

module _ {W : Type 0} where
  abbrev pub pure : {A : Type 0} → A → Cmd W A
  pure a t w = (ok a, w)

  abbrev pub fail : {A : Type 0} → Err → Cmd W A
  fail e t w = (err e, w)

  infixl 5 ◌>>=◌ ◌>>◌
  abbrev pub ◌>>=◌ : {A B : Type 0} → Cmd W A → (A → Cmd W B) → Cmd W B
  ◌>>=◌ m f t w = let (r, w') = m t w in elim r [ ok a ↦ f a t w' | err e ↦ (err e, w') ]

  abbrev pub ◌>>◌ : {A B : Type 0} → Cmd W A → Cmd W B → Cmd W B
  m >> k = m >>= λ _. k

  -- The error of a command alone, as `if e := f(); e != nil` reads it: the command itself does not fail.
  abbrev pub try : {A : Type 0} → Cmd W A → Cmd W (Option Err)
  try m t w = let (r, w') = m t w in elim r [ ok _ ↦ (ok none, w') | err e ↦ (ok (some e), w') ]
