-- ===== src/Buffer/Transfer.antt =====
-- cuda/buffer.go: memsets of a buffer, and copies between two device buffers. Two pointers to the same
-- buffer need no case of their own: the source skips the second lock and the second look at `closed`.
use gocudrv.Base.{ℕ, ◌%◌, ◌||◌, not, Option, ◌==◌, if◌then◌else◌}
use gocudrv.Driver.Errors.{
  nil_buffer, nil_stream, buffer_closed, stream_closed, length_mismatch, context_mismatch,
  unsupported_fill_type,
}
use gocudrv.Driver.{Driver, Call}
use gocudrv.Context.Exec.{GoContext}
use gocudrv.Context.State.{M, ◌>>=◌, ◌>>◌}
use gocudrv.Dispatch.{run, memset_call, memset_async_call}
use gocudrv.Buffer.{elem_size, Buffer, Stream, Slice, reject_if, deref, copy_from, copy_to}

-- `fillBits`, from the bytes of the value read as a number.
abbrev pub fill_bits : ℕ → ℕ → ℕ
fill_bits size v = if size == 1 then v % 256 else if size == 2 then v % 65536 else v % 4294967296

module _ {W : Type 0} (d : Driver W) where
  -- `Zero`
  unfoldable pub zero : GoContext → Option Buffer → M W (Unit {0})
  zero g buffer = do
    b ← deref buffer nil_buffer
    reject_if b.closed buffer_closed
    run d b.ctx g (memset_call 1 b.ptr 0 b.bytes)

  -- `ZeroAsync`
  unfoldable pub zero_async : GoContext → Option Buffer → Option Stream → M W (Unit {0})
  zero_async g buffer stream = do
    b ← deref buffer nil_buffer
    st ← deref stream nil_stream
    reject_if st.closed stream_closed
    reject_if b.closed buffer_closed
    reject_if (not (st.ctx == b.ctx)) context_mismatch
    run d b.ctx g (memset_async_call 1 b.ptr 0 b.bytes st.raw)

  -- `Fill`
  unfoldable pub fill : GoContext → Option Buffer → ℕ → M W (Unit {0})
  fill g buffer v = do
    b ← deref buffer nil_buffer
    reject_if (elem_size b.elem == 8) unsupported_fill_type
    reject_if b.closed buffer_closed
    run d b.ctx g (memset_call (elem_size b.elem) b.ptr (fill_bits (elem_size b.elem) v) b.length)

  -- `FillAsync`
  unfoldable pub fill_async : GoContext → Option Buffer → Option Stream → ℕ → M W (Unit {0})
  fill_async g buffer stream v = do
    b ← deref buffer nil_buffer
    st ← deref stream nil_stream
    reject_if (elem_size b.elem == 8) unsupported_fill_type
    reject_if st.closed stream_closed
    reject_if b.closed buffer_closed
    reject_if (not (st.ctx == b.ctx)) context_mismatch
    run d b.ctx g (
        memset_async_call (elem_size b.elem) b.ptr (fill_bits (elem_size b.elem) v) b.length st.raw)

  -- `CopyToDevice`
  unfoldable pub copy_to_device : GoContext → Option Buffer → Option Buffer → M W (Unit {0})
  copy_to_device g buffer target = do
    b ← deref buffer nil_buffer
    dst ← deref target nil_buffer
    reject_if b.closed buffer_closed
    reject_if dst.closed buffer_closed
    reject_if (not (dst.ctx == b.ctx)) context_mismatch
    reject_if (not (dst.length == b.length)) length_mismatch
    run d b.ctx g (Call.memcpy_dtod dst.ptr b.ptr b.bytes)

  -- `CopyToDeviceAsync`
  unfoldable pub copy_to_device_async :
      GoContext → Option Buffer → Option Stream → Option Buffer → M W (Unit {0})
  copy_to_device_async g buffer stream target = do
    b ← deref buffer nil_buffer
    dst ← deref target nil_buffer
    st ← deref stream nil_stream
    reject_if st.closed stream_closed
    reject_if b.closed buffer_closed
    reject_if dst.closed buffer_closed
    reject_if (not (st.ctx == b.ctx) || not (dst.ctx == b.ctx)) context_mismatch
    reject_if (not (dst.length == b.length)) length_mismatch
    run d b.ctx g (Call.memcpy_dtod_async dst.ptr b.ptr b.bytes st.raw)

  -- `CopyHtoD`
  unfoldable pub copy_hto_d : GoContext → Option Buffer → Slice → M W (Unit {0})
  unfolding copy_from
  copy_hto_d g dst src = copy_from d g dst src

  -- `CopyDtoH`
  unfoldable pub copy_dto_h : GoContext → Slice → Option Buffer → M W (Unit {0})
  unfolding copy_to
  copy_dto_h g dst src = copy_to d g src dst
