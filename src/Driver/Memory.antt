-- ===== src/Driver/Memory.antt =====
-- The wrappers of cudaresult for managed, registered, pooled and pitched memory (managed.go,
-- memory.go, mempool.go, pitch.go).
use gocudrv.Base.{ℕ, ℤ}
use gocudrv.Driver.{Call, Driver, Cmd}
use gocudrv.Driver.Desc.{Memcpy2d}
use gocudrv.Driver.Calls.{invoke}

module _ {W : Type 0} (d : Driver W) where
  unfoldable pub mem_alloc_managed : ℕ → ℕ → Cmd W ℕ
  unfolding invoke
  mem_alloc_managed bytes flags = invoke d (Call.mem_alloc_managed bytes flags) (λ r. r.value)

  unfoldable pub mem_prefetch_async : ℕ → ℕ → ℤ → ℕ → Cmd W (Unit {0})
  unfolding invoke
  mem_prefetch_async ptr count device stream =
      invoke d (Call.mem_prefetch_async ptr count device stream) (λ _. tt)

  unfoldable pub mem_advise : ℕ → ℕ → ℤ → ℕ → Cmd W (Unit {0})
  unfolding invoke
  mem_advise ptr count advice device = invoke d (Call.mem_advise ptr count advice device) (λ _. tt)

  unfoldable pub mem_host_register : ℕ → ℕ → ℕ → Cmd W (Unit {0})
  unfolding invoke
  mem_host_register p bytes flags = invoke d (Call.mem_host_register p bytes flags) (λ _. tt)

  unfoldable pub mem_host_unregister : ℕ → Cmd W (Unit {0})
  unfolding invoke
  mem_host_unregister p = invoke d (Call.mem_host_unregister p) (λ _. tt)

  unfoldable pub default_mem_pool : ℕ → Cmd W ℕ
  unfolding invoke
  default_mem_pool device = invoke d (Call.default_mem_pool device) (λ r. r.value)

  unfoldable pub mem_pool_get : ℕ → ℕ → Cmd W ℕ
  unfolding invoke
  mem_pool_get pool attr = invoke d (Call.mem_pool_get pool attr) (λ r. r.value)

  unfoldable pub mem_pool_set : ℕ → ℕ → ℕ → Cmd W (Unit {0})
  unfolding invoke
  mem_pool_set pool attr value = invoke d (Call.mem_pool_set pool attr value) (λ _. tt)

  unfoldable pub mem_alloc_from_pool_async : ℕ → ℕ → ℕ → Cmd W ℕ
  unfolding invoke
  mem_alloc_from_pool_async bytes pool stream =
      invoke d (Call.mem_alloc_from_pool_async bytes pool stream) (λ r. r.value)

  -- The address and the pitch.
  unfoldable pub mem_alloc_pitch : ℕ → ℕ → ℕ → Cmd W (ℕ × ℕ)
  unfolding invoke
  mem_alloc_pitch width_bytes height element_bytes =
      invoke d (Call.mem_alloc_pitch width_bytes height element_bytes) (λ r. (r.value, r.second))

  unfoldable pub memcpy_2d : Memcpy2d → Cmd W (Unit {0})
  unfolding invoke
  memcpy_2d desc = invoke d (Call.memcpy_2d desc) (λ _. tt)

  unfoldable pub memcpy_2d_async : Memcpy2d → ℕ → Cmd W (Unit {0})
  unfolding invoke
  memcpy_2d_async desc stream = invoke d (Call.memcpy_2d_async desc stream) (λ _. tt)
