-- ===== src/Managed.antt =====
-- cuda/managed.go and cuda/mempool.go: unified memory, and the memory pools of a device. `Slice` is left out.
pub mod Lifecycle
mod Tests
use gocudrv.Base.{ℕ, Bool, true, false, not, Option, none, some, ◌==◌, ℤ, pos, negsuc, to_uint}
use gocudrv.Driver.Errors.{
  Err, sentinel, nil_context, nil_buffer, nil_stream, nil_mem_pool, stream_closed, buffer_closed,
  context_mismatch, invalid_length,
}
use gocudrv.Driver.{Driver}
use gocudrv.Driver.Calls.{mem_free}
use gocudrv.Driver.Memory.{
  mem_alloc_managed, mem_prefetch_async, mem_advise, default_mem_pool, mem_pool_get, mem_pool_set,
  mem_alloc_from_pool_async,
}
use gocudrv.Context.Exec.{GoContext, background}
use gocudrv.Context.State.{Store, M, ◌>>=◌, ◌>>◌, pure}
use gocudrv.Context.Run.{do_waited, do_plain}
use gocudrv.Buffer.{Elem, Buffer, Stream, reject_if, deref, bad_length, byte_size}
use gocudrv.Closing.{close_once}

-- `ManagedBuffer`, whose host pointer is its device pointer.
pub record ManagedBuffer : Type 0 where
  pub ctx : ℕ
  pub ptr : ℕ
  pub length : ℕ
  pub bytes : ℕ
  pub closed : Bool

-- `memAttachGlobal`, and `deviceCPU`, which is -1.
abbrev pub mem_attach_global : ℕ
mem_attach_global = 1

abbrev pub device_cpu : ℤ
device_cpu = negsuc 0

-- `MemoryPool`
pub record MemoryPool : Type 0 where
  pub ctx : ℕ
  pub raw : ℕ

abbrev pub attr_release_threshold : ℕ
attr_release_threshold = 4

module _ {W : Type 0} (d : Driver W) where
  -- `AllocManaged`
  unfoldable pub alloc_managed : Elem → Option ℕ → ℤ → M W ManagedBuffer
  alloc_managed t ctx n = do
    c ← deref ctx nil_context
    reject_if (bad_length t n) invalid_length
    p ← do_plain d c background (mem_alloc_managed d (byte_size t (to_uint n)) mem_attach_global)
    pure (record {
      ctx = c;
      ptr = p;
      length = to_uint n;
      bytes = byte_size t (to_uint n);
      closed = false;
    })

  -- The device that a prefetch goes to.
  abbrev prefetch_target : Bool → ℕ → ℤ
  prefetch_target true device = device_cpu
  prefetch_target false device = pos device

  -- `prefetch`
  unfoldable pub prefetch : Option ManagedBuffer → GoContext → Option Stream → Bool → M W (Unit {0})
  prefetch buffer g stream to_host s =
      (do
        m ← deref buffer nil_buffer
        st ← deref stream nil_stream
        reject_if st.closed stream_closed
        reject_if m.closed buffer_closed
        reject_if (not (st.ctx == m.ctx)) context_mismatch
        do_waited d m.ctx g (
            mem_prefetch_async d m.ptr m.bytes (prefetch_target to_host (s.contexts m.ctx).device)
              st.raw))
        s

  -- `Advise`
  unfoldable pub advise : Option ManagedBuffer → ℤ → M W (Unit {0})
  advise buffer advice s =
      (do
        m ← deref buffer nil_buffer
        reject_if m.closed buffer_closed
        do_plain d m.ctx background (mem_advise d m.ptr m.bytes advice (s.contexts m.ctx).device))
        s

  -- `Close`
  unfoldable pub close :
      Option ManagedBuffer → Store W → Option Err × Option ManagedBuffer × Store W
  unfolding close_once
  close none s = (some (sentinel nil_buffer), none, s)
  close (some m) s =
      let (e, now, s') = close_once d m.closed m.ctx (mem_free d m.ptr) s in
      (e, some (record m { closed = now }), s')

  -- `DefaultMemPool`
  unfoldable pub default_pool : Option ℕ → M W MemoryPool
  default_pool ctx s =
      (do
        c ← deref ctx nil_context
        raw ← do_plain d c background (default_mem_pool d (s.contexts c).device)
        pure (record { ctx = c; raw = raw }))
        s

  -- `getU64`, of which `ReleaseThreshold`, `ReservedMemCurrent` and `UsedMemCurrent` are calls.
  unfoldable pub get_u64 : Option MemoryPool → ℕ → M W ℕ
  get_u64 pool attr = do
    p ← deref pool nil_mem_pool
    do_plain d p.ctx background (mem_pool_get d p.raw attr)

  -- `SetReleaseThreshold`
  unfoldable pub set_release_threshold : Option MemoryPool → ℕ → M W (Unit {0})
  set_release_threshold pool bytes = do
    p ← deref pool nil_mem_pool
    do_plain d p.ctx background (mem_pool_set d p.raw attr_release_threshold bytes)

  -- `AllocFromPool`
  unfoldable pub alloc_from_pool : Elem → Option MemoryPool → Option Stream → ℤ → M W Buffer
  alloc_from_pool t pool stream n = do
    p ← deref pool nil_mem_pool
    st ← deref stream nil_stream
    reject_if (bad_length t n) invalid_length
    reject_if st.closed stream_closed
    reject_if (not (st.ctx == p.ctx)) context_mismatch
    ptr ←
        do_waited d p.ctx background
          (mem_alloc_from_pool_async d (byte_size t (to_uint n)) p.raw st.raw)
    pure (record {
      ctx = p.ctx;
      elem = t;
      ptr = ptr;
      length = to_uint n;
      bytes = byte_size t (to_uint n);
      closed = false;
    })
