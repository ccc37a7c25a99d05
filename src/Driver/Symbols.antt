-- ===== src/Driver/Symbols.antt =====
-- cudasys: the entry point that each call of the driver goes to.
use gocudrv.Driver.Errors.{Symbol}
use gocudrv.Driver.{Call}

-- The symbol of a call.
abbrev pub symbol : Call → Symbol
symbol (Call.primary_ctx_retain _) = Symbol.primary_ctx_retain
symbol (Call.primary_ctx_release _) = Symbol.primary_ctx_release
symbol (Call.ctx_set_current _) = Symbol.ctx_set_current
symbol Call.mem_get_info = Symbol.mem_get_info
symbol (Call.mem_alloc _) = Symbol.mem_alloc
symbol (Call.mem_free _) = Symbol.mem_free
symbol (Call.mem_alloc_async _ _) = Symbol.mem_alloc_async
symbol (Call.mem_free_async _ _) = Symbol.mem_free_async
symbol (Call.mem_alloc_host _) = Symbol.mem_alloc_host
symbol (Call.mem_free_host _) = Symbol.mem_free_host
symbol (Call.memcpy_htod _ _ _) = Symbol.memcpy_htod
symbol (Call.memcpy_dtoh _ _ _) = Symbol.memcpy_dtoh
symbol (Call.memcpy_dtod _ _ _) = Symbol.memcpy_dtod
symbol (Call.memcpy_htod_async _ _ _ _) = Symbol.memcpy_htod_async
symbol (Call.memcpy_dtoh_async _ _ _ _) = Symbol.memcpy_dtoh_async
symbol (Call.memcpy_dtod_async _ _ _ _) = Symbol.memcpy_dtod_async
symbol (Call.memset_d8 _ _ _) = Symbol.memset_d8
symbol (Call.memset_d16 _ _ _) = Symbol.memset_d16
symbol (Call.memset_d32 _ _ _) = Symbol.memset_d32
symbol (Call.memset_d8_async _ _ _ _) = Symbol.memset_d8_async
symbol (Call.memset_d16_async _ _ _ _) = Symbol.memset_d16_async
symbol (Call.memset_d32_async _ _ _ _) = Symbol.memset_d32_async
symbol (Call.mem_granularity _ _) = Symbol.mem_granularity
symbol (Call.mem_create _ _) = Symbol.mem_create
symbol (Call.mem_address_reserve _ _) = Symbol.mem_address_reserve
symbol (Call.mem_map _ _ _) = Symbol.mem_map
symbol (Call.mem_set_access _ _ _) = Symbol.mem_set_access
symbol (Call.mem_unmap _ _) = Symbol.mem_unmap
symbol (Call.mem_address_free _ _) = Symbol.mem_address_free
symbol (Call.mem_release _) = Symbol.mem_release
symbol Call.ctx_synchronize = Symbol.ctx_synchronize
symbol Call.ctx_stream_priority_range = Symbol.ctx_stream_priority_range
symbol (Call.stream_create _) = Symbol.stream_create
symbol (Call.stream_create_with_priority _ _) = Symbol.stream_create_with_priority
symbol (Call.stream_destroy _) = Symbol.stream_destroy
symbol (Call.stream_synchronize _) = Symbol.stream_synchronize
symbol (Call.stream_query _) = Symbol.stream_query
symbol (Call.stream_wait_event _ _ _) = Symbol.stream_wait_event
symbol (Call.event_create _) = Symbol.event_create
symbol (Call.event_destroy _) = Symbol.event_destroy
symbol (Call.event_record _ _) = Symbol.event_record
symbol (Call.event_query _) = Symbol.event_query
symbol (Call.event_synchronize _) = Symbol.event_synchronize
symbol (Call.event_elapsed_time _ _) = Symbol.event_elapsed_time
symbol (Call.module_load_data _) = Symbol.module_load_data
symbol (Call.module_unload _) = Symbol.module_unload
symbol (Call.module_get_function _ _) = Symbol.module_get_function
symbol (Call.launch_kernel _ _ _ _) = Symbol.launch_kernel
symbol (Call.launch_cooperative_kernel _ _ _ _) = Symbol.launch_cooperative_kernel
symbol (Call.launch_host_func _ _ _) = Symbol.launch_host_func
symbol (Call.mem_alloc_managed _ _) = Symbol.mem_alloc_managed
symbol (Call.mem_prefetch_async _ _ _ _) = Symbol.mem_prefetch_async
symbol (Call.mem_advise _ _ _ _) = Symbol.mem_advise
symbol (Call.mem_host_register _ _ _) = Symbol.mem_host_register
symbol (Call.mem_host_unregister _) = Symbol.mem_host_unregister
symbol (Call.default_mem_pool _) = Symbol.default_mem_pool
symbol (Call.mem_pool_get _ _) = Symbol.mem_pool_get
symbol (Call.mem_pool_set _ _ _) = Symbol.mem_pool_set
symbol (Call.mem_alloc_from_pool_async _ _ _) = Symbol.mem_alloc_from_pool_async
symbol (Call.mem_alloc_pitch _ _ _) = Symbol.mem_alloc_pitch
symbol (Call.memcpy_2d _) = Symbol.memcpy_2d
symbol (Call.memcpy_2d_async _ _) = Symbol.memcpy_2d_async
symbol (Call.array_create _ _ _) = Symbol.array_create
symbol (Call.array_3d_create _ _ _ _) = Symbol.array_3d_create
symbol (Call.array_destroy _) = Symbol.array_destroy
symbol (Call.tex_object_create _ _ _ _) = Symbol.tex_object_create
symbol (Call.tex_object_destroy _) = Symbol.tex_object_destroy
symbol (Call.surf_object_create _) = Symbol.surf_object_create
symbol (Call.surf_object_destroy _) = Symbol.surf_object_destroy
symbol (Call.memcpy_3d _) = Symbol.memcpy_3d
symbol (Call.memcpy_3d_async _ _) = Symbol.memcpy_3d_async
symbol (Call.stream_begin_capture _ _) = Symbol.stream_begin_capture
symbol (Call.stream_end_capture _) = Symbol.stream_end_capture
symbol (Call.graph_instantiate _ _) = Symbol.graph_instantiate
symbol (Call.graph_launch _ _) = Symbol.graph_launch
symbol (Call.graph_destroy _) = Symbol.graph_destroy
symbol (Call.graph_exec_update _ _) = Symbol.graph_exec_update
symbol (Call.graph_exec_destroy _) = Symbol.graph_exec_destroy
symbol (Call.link_create _ _) = Symbol.link_create
symbol (Call.link_add_data _ _ _ _) = Symbol.link_add_data
symbol (Call.link_complete _) = Symbol.link_complete
symbol (Call.link_destroy _) = Symbol.link_destroy
symbol (Call.ipc_get_mem_handle _) = Symbol.ipc_get_mem_handle
symbol (Call.ipc_open_mem_handle _ _) = Symbol.ipc_open_mem_handle
symbol (Call.ipc_close_mem_handle _) = Symbol.ipc_close_mem_handle
symbol (Call.ipc_get_event_handle _) = Symbol.ipc_get_event_handle
symbol (Call.ipc_open_event_handle _) = Symbol.ipc_open_event_handle
symbol (Call.device_can_access_peer _ _) = Symbol.device_can_access_peer
symbol (Call.ctx_enable_peer_access _ _) = Symbol.ctx_enable_peer_access
symbol (Call.ctx_disable_peer_access _) = Symbol.ctx_disable_peer_access
symbol (Call.memcpy_peer _ _ _ _ _) = Symbol.memcpy_peer
symbol (Call.pointer_get_attribute _ _) = Symbol.pointer_get_attribute
symbol (Call.occupancy_max_active_blocks _ _ _) = Symbol.occupancy_max_active_blocks
symbol (Call.occupancy_max_potential_block_size _ _ _) = Symbol.occupancy_max_potential_block_size
symbol (Call.func_set_attribute _ _ _) = Symbol.func_set_attribute
symbol (Call.func_get_attribute _ _) = Symbol.func_get_attribute
symbol (Call.module_get_global _ _) = Symbol.module_get_global
symbol (Call.module_load_data_ex _ _ _) = Symbol.module_load_data_ex
symbol Call.device_get_count = Symbol.device_get_count
symbol Call.driver_get_version = Symbol.driver_get_version
symbol (Call.device_get _) = Symbol.device_get
symbol (Call.device_get_name _ _) = Symbol.device_get_name
symbol (Call.device_total_mem _) = Symbol.device_total_mem
symbol (Call.device_get_attribute _ _) = Symbol.device_get_attribute
symbol (Call.device_get_pci_bus_id _ _) = Symbol.device_get_pci_bus_id
symbol (Call.device_get_uuid _) = Symbol.device_get_uuid
