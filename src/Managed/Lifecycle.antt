-- ===== src/Managed/Lifecycle.antt =====
-- Unified memory and the memory of pools, from the allocation to the close.
use gocudrv.Base.{
  ℕ, ◌*◌, ◌<◌, ◌≡◌, refl, Bool, true, false, ◌&&◌, not, Option, none, some, arith, ℤ, pos,
}
use gocudrv.Driver.Errors.{
  Err, sentinel, buffer_closed, nil_context, nil_stream, nil_mem_pool, ok, err,
}
use gocudrv.Driver.{Driver}
use gocudrv.Driver.Calls.{mem_free, mem_alloc, mem_alloc_async, mem_alloc_host}
use gocudrv.Driver.Memory.{mem_alloc_managed, mem_alloc_from_pool_async}
use gocudrv.Context.Exec.{GoContext, background}
use gocudrv.Context.State.{Store, M, ◌>>=◌, pure}
use gocudrv.Context.Run.{do_waited, do_plain}
use gocudrv.Buffer.{Elem, elem_size, Stream, deref, alloc, alloc_async}
use gocudrv.Buffer.Lifecycle.{size_fits}
use gocudrv.Closing.{close_once, close_once_lem, is_nil}
use gocudrv.Pinning.{alloc_host}
use gocudrv.Managed.{
  ManagedBuffer, MemoryPool, alloc_managed, prefetch, advise, close, alloc_from_pool,
  mem_attach_global,
}

-- The numbers of an allocation of `n` elements: positive, and without wrap in 64 bits.
abbrev pub Sized : Elem → ℤ → ℕ → ℕ → Type 0
Sized t n length bytes =
    (n ≡ pos length)
    × (0 < length)
    × (bytes ≡ length * elem_size t)
    × (bytes < 18446744073709551616)

module _ {W : Type 0} (d : Driver W) where
  -- If `Close` of a ManagedBuffer returns nil, the buffer is closed: another `Close` returns nil, and
  -- prefetches on an open stream and advice return `ErrBufferClosed`, all without a change of the store.
  -- If it returns an error, the buffer was open and is open still.
  managed-close_refuses :
      (m : ManagedBuffer) (o : Option ManagedBuffer) (x : Option Err) (st : Stream) (g : GoContext)
      (to_host : Bool) (advice : ℤ) (s s' : Store W)
      → st.closed ≡ false
      → close d (some m) s ≡ (x, o, s')
      → (o ≡ some (record m { closed = is_nil x }))
        × ((m.closed && not (is_nil x)) ≡ false)
        × (close d (some (record m { closed = true })) s'
            ≡ (none, some (record m { closed = true }), s'))
        × (prefetch d (some (record m { closed = true })) g (some st) to_host s'
            ≡ (err (sentinel buffer_closed), s'))
        × (advise d (some (record m { closed = true })) advice s'
            ≡ (err (sentinel buffer_closed), s'))
  unfolding close prefetch advise
  managed-close_refuses m o x st g to_host advice s s' p e =
      let (u, v) = close_once_lem d m.closed m.ctx (mem_free d m.ptr) s in
      (ground arith, ground arith, unfold close_once in refl, ground arith, refl)

-- The ways to allocate typed memory, with what each takes besides the number of elements.
pub data Allocation : Type 0 where
  device_memory : Option ℕ → Allocation
  stream_memory : Option ℕ → Option Stream → Allocation
  host_memory : Option ℕ → Allocation
  managed_memory : Option ℕ → Allocation
  pool_memory : Option MemoryPool → Option Stream → Allocation

module _ {W : Type 0} (d : Driver W) where
  -- The address, the length and the size in bytes of what an allocation returns.
  unfoldable pub allocate : Allocation → Elem → ℤ → M W (ℕ × ℕ × ℕ)
  allocate (device_memory c) t n = do b ← alloc d t c n; pure (b.ptr, b.length, b.bytes)
  allocate (stream_memory c st) t n = do b ← alloc_async d t c st n; pure (b.ptr, b.length, b.bytes)
  allocate (host_memory c) t n = do b ← alloc_host d t c n; pure (b.ptr, b.length, b.bytes)
  allocate (managed_memory c) t n = do b ← alloc_managed d t c n; pure (b.ptr, b.length, b.bytes)
  allocate (pool_memory p st) t n = do
    b ← alloc_from_pool d t p st n
    pure (b.ptr, b.length, b.bytes)

  -- The request for so many bytes that each of them makes of the driver.
  abbrev pub request : Allocation → ℕ → M W ℕ
  request (device_memory ctx) b = do
    c ← deref ctx nil_context
    do_plain d c background (mem_alloc d b)
  request (stream_memory ctx stream) b = do
    c ← deref ctx nil_context
    st ← deref stream nil_stream
    do_waited d c background (mem_alloc_async d b st.raw)
  request (host_memory ctx) b = do
    c ← deref ctx nil_context
    do_waited d c background (mem_alloc_host d b)
  request (managed_memory ctx) b = do
    c ← deref ctx nil_context
    do_plain d c background (mem_alloc_managed d b mem_attach_global)
  request (pool_memory pool stream) b = do
    p ← deref pool nil_mem_pool
    st ← deref stream nil_stream
    do_waited d p.ctx background (mem_alloc_from_pool_async d b p.raw st.raw)

  -- The memory that `Alloc`, `AllocAsync`, `AllocHost`, `AllocManaged` or `AllocFromPool` returns has the
  -- asked number of elements, which is positive, and its size in bytes is that number times the
  -- element size, below 2^64 and so without wrap; and its address is what the driver answered when it was
  -- asked for exactly that many bytes.
  pub allocations-Sized :
      (a : Allocation) (t : Elem) (n : ℤ) (p length bytes : ℕ) (s s' : Store W)
      → allocate a t n s ≡ (ok (p, length, bytes), s')
      → Sized t n length bytes × (request a bytes s ≡ (ok p, s'))
  unfolding allocate alloc alloc_async alloc_host alloc_managed alloc_from_pool
  allocations-Sized (device_memory none) t n p l b s s' e = ground arith
  allocations-Sized (device_memory (some c)) t n p l b s s' e =
      let f = size_fits t n in ground arith
  allocations-Sized (stream_memory none st) t n p l b s s' e = ground arith
  allocations-Sized (stream_memory (some c) none) t n p l b s s' e = ground arith
  allocations-Sized (stream_memory (some c) (some st)) t n p l b s s' e =
      let f = size_fits t n in ground arith
  allocations-Sized (host_memory none) t n p l b s s' e = ground arith
  allocations-Sized (host_memory (some c)) t n p l b s s' e = let f = size_fits t n in ground arith
  allocations-Sized (managed_memory none) t n p l b s s' e = ground arith
  allocations-Sized (managed_memory (some c)) t n p l b s s' e =
      let f = size_fits t n in ground arith
  allocations-Sized (pool_memory none st) t n p l b s s' e = ground arith
  allocations-Sized (pool_memory (some q) none) t n p l b s s' e = ground arith
  allocations-Sized (pool_memory (some q) (some st)) t n p l b s s' e =
      let f = size_fits t n in ground arith
