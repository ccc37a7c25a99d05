-- ===== src/Driver/Errors.antt =====
-- cuda/errors.go, cudaresult/error.go and internal/executor/executor.go: the error values, and
-- `errors.Join`. A nil error is `none`.
use gocudrv.Base.{ℕ, Option, none, some, List, [], ◌∷◌, ◌==◌, if◌then◌else◌}

-- The wrapper-level sentinels of the modelled parts.
pub data Sentinel : Type 0 where
  context_closed nil_context nil_buffer buffer_closed length_mismatch invalid_length : Sentinel
  out_of_range nil_stream stream_closed context_mismatch unsupported_fill_type : Sentinel
  nil_device symbol_unavailable executor_closed : Sentinel
  nil_event event_closed event_timing_disabled invalid_stream_priority nil_host_func : Sentinel
  nil_module module_closed empty_image empty_function_name invalid_function_name nil_function :
      Sentinel
  invalid_launch_config nil_kernel_arg invalid_arg_size nil_mem_pool : Sentinel
  arg_index_out_of_range arg_type_mismatch arg_size_mismatch : Sentinel
  nil_array array_closed nil_texture texture_closed unsupported_element : Sentinel
  nil_surface surface_closed no_surface_store : Sentinel
  nil_graph graph_closed nil_graph_exec graph_exec_closed nil_linker linker_closed : Sentinel
  nil_global empty_global_name invalid_global_name event_not_interprocess : Sentinel
  invalid_block_size invalid_ordinal : Sentinel

-- The driver entry points, as `Error.Op` names them.
pub data Symbol : Type 0 where
  primary_ctx_retain primary_ctx_release ctx_set_current mem_get_info : Symbol
  mem_alloc mem_free mem_alloc_async mem_free_async mem_alloc_host mem_free_host : Symbol
  memcpy_htod memcpy_dtoh memcpy_dtod memcpy_htod_async memcpy_dtoh_async memcpy_dtod_async : Symbol
  memset_d8 memset_d16 memset_d32 memset_d8_async memset_d16_async memset_d32_async : Symbol
  mem_granularity mem_create mem_address_reserve mem_map mem_set_access mem_unmap : Symbol
  mem_address_free mem_release : Symbol
  ctx_synchronize ctx_stream_priority_range stream_create stream_create_with_priority stream_destroy
        stream_synchronize :
      Symbol
  stream_query stream_wait_event event_create event_destroy event_record event_query : Symbol
  event_synchronize event_elapsed_time module_load_data module_unload module_get_function
        launch_kernel :
      Symbol
  launch_cooperative_kernel launch_host_func mem_alloc_managed mem_prefetch_async mem_advise
        mem_host_register :
      Symbol
  mem_host_unregister default_mem_pool mem_pool_get mem_pool_set mem_alloc_from_pool_async : Symbol
  mem_alloc_pitch memcpy_2d memcpy_2d_async : Symbol
  array_create array_3d_create array_destroy tex_object_create tex_object_destroy : Symbol
  surf_object_create surf_object_destroy memcpy_3d memcpy_3d_async stream_begin_capture : Symbol
  stream_end_capture graph_instantiate graph_launch graph_destroy graph_exec_update : Symbol
  graph_exec_destroy link_create link_add_data link_complete link_destroy : Symbol
  ipc_get_mem_handle ipc_open_mem_handle ipc_close_mem_handle ipc_get_event_handle
        ipc_open_event_handle :
      Symbol
  device_can_access_peer ctx_enable_peer_access ctx_disable_peer_access memcpy_peer
        pointer_get_attribute :
      Symbol
  occupancy_max_active_blocks occupancy_max_potential_block_size func_set_attribute
        func_get_attribute module_get_global :
      Symbol
  module_load_data_ex device_get_count driver_get_version device_get device_get_name
        device_total_mem :
      Symbol
  device_get_attribute device_get_pci_bus_id device_get_uuid : Symbol

-- A Go error: a sentinel, a driver result code with the call that gave it, the error of a canceled
-- context, a recovered panic, or the join of several.
mutual
  pub data Err : Type 0 where
    sentinel : Sentinel → Err
    driver_error : ℕ → Option Symbol → Err
    context_error : ℕ → Err
    panic_error : Err
    joined : Errs → Err

  pub data Errs : Type 0 where
    last : Err → Errs
    more : Err → Errs → Errs

pub data Result (A : Type 0) : Type 0 where
  ok : A → Result A
  err : Err → Result A

-- The errors that are not nil.
pub some_errors : List (Option Err) → Option Errs
some_errors [] = none
some_errors (none ∷ es) = some_errors es
some_errors (some e ∷ es) = elim (some_errors es) [
  | none ↦ some (last e)
  | some r ↦ some (more e r)
]

-- `errors.Join`: nil if every argument is nil, and otherwise a list of those that are not.
unfoldable pub join : List (Option Err) → Option Err
unfolding some_errors
join es = elim (some_errors es) [ none ↦ none | some r ↦ some (joined r) ]

-- `err` as a result of a command that returns only an error.
abbrev pub of_error : Option Err → Result (Unit {0})
of_error none = ok tt
of_error (some e) = err e

-- The error of a result.
abbrev pub error_of : {A : Type 0} → Result A → Option Err
error_of (ok _) = none
error_of (err e) = some e

-- `ErrNotInitialized`: result code 3, with no call named.
abbrev pub not_initialized : Err
not_initialized = driver_error 3 none

-- `ErrInvalidValue`, and the error of a graph whose update the driver declines.
abbrev pub invalid_value : Err
invalid_value = driver_error 1 none

abbrev pub graph_exec_update_failure : Err
graph_exec_update_failure = driver_error 910 none

-- `check`
unfoldable pub check : Symbol → ℕ → Option Err
check s code = if code == 0 then none else some (driver_error code (some s))
