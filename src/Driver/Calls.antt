-- ===== src/Driver/Calls.antt =====
-- The wrappers of cudaresult: a symbol that is not bound gives an error and no call; otherwise the
-- driver is called once, and its code goes through `check`.
use gocudrv.Base.{ℕ, Bool, true, false, none, some, if◌then◌else◌}
use gocudrv.Driver.Errors.{
  Err, Symbol, sentinel, symbol_unavailable, ok, err, check, not_initialized,
}
use gocudrv.Driver.{Call, Reply, Driver, Cmd}
use gocudrv.Driver.Symbols.{symbol}

-- The symbols that every supported driver must have; the others belong to optional groups.
abbrev pub is_core : Symbol → Bool
is_core Symbol.mem_alloc_async = false
is_core Symbol.mem_free_async = false
is_core Symbol.mem_granularity = false
is_core Symbol.mem_create = false
is_core Symbol.mem_address_reserve = false
is_core Symbol.mem_map = false
is_core Symbol.mem_set_access = false
is_core Symbol.mem_unmap = false
is_core Symbol.mem_address_free = false
is_core Symbol.mem_release = false
is_core Symbol.launch_cooperative_kernel = false
is_core Symbol.launch_host_func = false
is_core Symbol.mem_alloc_managed = false
is_core Symbol.mem_prefetch_async = false
is_core Symbol.mem_advise = false
is_core Symbol.mem_host_register = false
is_core Symbol.mem_host_unregister = false
is_core Symbol.default_mem_pool = false
is_core Symbol.mem_pool_get = false
is_core Symbol.mem_pool_set = false
is_core Symbol.mem_alloc_from_pool_async = false
is_core Symbol.mem_alloc_pitch = false
is_core Symbol.memcpy_2d = false
is_core Symbol.memcpy_2d_async = false
is_core Symbol.array_create = false
is_core Symbol.array_3d_create = false
is_core Symbol.array_destroy = false
is_core Symbol.tex_object_create = false
is_core Symbol.tex_object_destroy = false
is_core Symbol.surf_object_create = false
is_core Symbol.surf_object_destroy = false
is_core Symbol.memcpy_3d = false
is_core Symbol.memcpy_3d_async = false
is_core Symbol.stream_begin_capture = false
is_core Symbol.stream_end_capture = false
is_core Symbol.graph_instantiate = false
is_core Symbol.graph_launch = false
is_core Symbol.graph_destroy = false
is_core Symbol.graph_exec_update = false
is_core Symbol.graph_exec_destroy = false
is_core Symbol.link_create = false
is_core Symbol.link_add_data = false
is_core Symbol.link_complete = false
is_core Symbol.link_destroy = false
is_core Symbol.ipc_get_mem_handle = false
is_core Symbol.ipc_open_mem_handle = false
is_core Symbol.ipc_close_mem_handle = false
is_core Symbol.ipc_get_event_handle = false
is_core Symbol.ipc_open_event_handle = false
is_core Symbol.device_can_access_peer = false
is_core Symbol.ctx_enable_peer_access = false
is_core Symbol.ctx_disable_peer_access = false
is_core Symbol.memcpy_peer = false
is_core Symbol.pointer_get_attribute = false
is_core Symbol.occupancy_max_active_blocks = false
is_core Symbol.occupancy_max_potential_block_size = false
is_core Symbol.func_set_attribute = false
is_core Symbol.func_get_attribute = false
is_core Symbol.device_get_pci_bus_id = false
is_core Symbol.device_get_uuid = false
is_core _ = true

-- The error for a symbol that is not bound.
abbrev pub missing : Symbol → Err
missing s = if is_core s then not_initialized else sentinel symbol_unavailable

module _ {W : Type 0} (d : Driver W) where
  -- The shape of every wrapper; `read` picks what it returns from the out parameters.
  unfoldable pub invoke : {A : Type 0} → Call → (Reply → A) → Cmd W A
  unfolding check
  invoke c read t w =
      let (r, w') = d.call t c w in
      if d.bound (symbol c)
      then elim (check (symbol c) r.code) [ none ↦ (ok (read r), w') | some e ↦ (err e, w') ]
      else (err (missing (symbol c)), w)

  abbrev nothing : Reply → Unit {0}
  nothing r = tt

  unfoldable pub primary_ctx_retain : ℕ → Cmd W ℕ
  unfolding invoke
  primary_ctx_retain device = invoke (Call.primary_ctx_retain device) (λ r. r.value)

  unfoldable pub primary_ctx_release : ℕ → Cmd W (Unit {0})
  unfolding invoke
  primary_ctx_release device = invoke (Call.primary_ctx_release device) nothing

  unfoldable pub ctx_set_current : ℕ → Cmd W (Unit {0})
  unfolding invoke
  ctx_set_current raw = invoke (Call.ctx_set_current raw) nothing

  -- free, then total
  unfoldable pub mem_get_info : Cmd W (ℕ × ℕ)
  unfolding invoke
  mem_get_info = invoke Call.mem_get_info (λ r. (r.value, r.second))

  unfoldable pub mem_alloc : ℕ → Cmd W ℕ
  unfolding invoke
  mem_alloc bytes = invoke (Call.mem_alloc bytes) (λ r. r.value)

  unfoldable pub mem_free : ℕ → Cmd W (Unit {0})
  unfolding invoke
  mem_free ptr = invoke (Call.mem_free ptr) nothing

  unfoldable pub mem_alloc_async : ℕ → ℕ → Cmd W ℕ
  unfolding invoke
  mem_alloc_async bytes stream = invoke (Call.mem_alloc_async bytes stream) (λ r. r.value)

  unfoldable pub mem_free_async : ℕ → ℕ → Cmd W (Unit {0})
  unfolding invoke
  mem_free_async ptr stream = invoke (Call.mem_free_async ptr stream) nothing

  unfoldable pub mem_alloc_host : ℕ → Cmd W ℕ
  unfolding invoke
  mem_alloc_host bytes = invoke (Call.mem_alloc_host bytes) (λ r. r.value)

  unfoldable pub mem_free_host : ℕ → Cmd W (Unit {0})
  unfolding invoke
  mem_free_host p = invoke (Call.mem_free_host p) nothing

  -- A copy or a memset, given as its call.
  unfoldable pub transfer : Call → Cmd W (Unit {0})
  unfolding invoke
  transfer c = invoke c nothing

  unfoldable pub mem_granularity : ℕ → ℕ → Cmd W ℕ
  unfolding invoke
  mem_granularity device option = invoke (Call.mem_granularity device option) (λ r. r.value)

  unfoldable pub mem_create : ℕ → ℕ → Cmd W ℕ
  unfolding invoke
  mem_create size device = invoke (Call.mem_create size device) (λ r. r.value)

  unfoldable pub mem_address_reserve : ℕ → ℕ → Cmd W ℕ
  unfolding invoke
  mem_address_reserve size alignment =
      invoke (Call.mem_address_reserve size alignment) (λ r. r.value)

  unfoldable pub mem_map : ℕ → ℕ → ℕ → Cmd W (Unit {0})
  unfolding invoke
  mem_map ptr size handle = invoke (Call.mem_map ptr size handle) nothing

  unfoldable pub mem_set_access : ℕ → ℕ → ℕ → Cmd W (Unit {0})
  unfolding invoke
  mem_set_access ptr size device = invoke (Call.mem_set_access ptr size device) nothing

  unfoldable pub mem_unmap : ℕ → ℕ → Cmd W (Unit {0})
  unfolding invoke
  mem_unmap ptr size = invoke (Call.mem_unmap ptr size) nothing

  unfoldable pub mem_address_free : ℕ → ℕ → Cmd W (Unit {0})
  unfolding invoke
  mem_address_free ptr size = invoke (Call.mem_address_free ptr size) nothing

  unfoldable pub mem_release : ℕ → Cmd W (Unit {0})
  unfolding invoke
  mem_release handle = invoke (Call.mem_release handle) nothing
