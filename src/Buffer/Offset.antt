-- ===== src/Buffer/Offset.antt =====
-- cuda/buffer_offset.go: copies of a part of a buffer.
use gocudrv.Base.{
  ℕ, ◌*◌, ◌+◌, ◌-◌, Bool, ◌||◌, not, Option, ◌==◌, ltb, ℤ, pos, leb_ℤ, ltb_ℤ, to_uint,
}
use gocudrv.Driver.Errors.{
  nil_buffer, nil_stream, buffer_closed, stream_closed, invalid_length, out_of_range,
  context_mismatch,
}
use gocudrv.Driver.{Driver, Call}
use gocudrv.Context.Exec.{GoContext}
use gocudrv.Context.State.{M, ◌>>=◌, ◌>>◌}
use gocudrv.Dispatch.{run}
use gocudrv.Buffer.{elem_size, Buffer, Stream, Slice, reject_if, deref, u64}

-- `offsetPtr`
abbrev pub offset_ptr : Buffer → ℕ → ℕ
offset_ptr b off = u64 (b.ptr + u64 (off * elem_size b.elem))

-- `off > length-n`, where the difference is negative if `n` exceeds the length.
abbrev pub past_end : ℕ → ℕ → ℕ → Bool
past_end off n len = ltb len n || ltb (len - n) off

module _ {W : Type 0} (d : Driver W) where
  -- `CopyFromAt`
  unfoldable pub copy_from_at : GoContext → Option Buffer → ℤ → Slice → M W (Unit {0})
  copy_from_at g buffer off src = do
    b ← deref buffer nil_buffer
    reject_if b.closed buffer_closed
    reject_if (ltb_ℤ off (pos 0) || src.len == 0) invalid_length
    reject_if (past_end (to_uint off) src.len b.length) out_of_range
    run d b.ctx g
        (Call.memcpy_htod (offset_ptr b (to_uint off)) src.addr (u64 (src.len * elem_size b.elem)))

  -- `CopyToAt`
  unfoldable pub copy_to_at : GoContext → Option Buffer → Slice → ℤ → M W (Unit {0})
  copy_to_at g buffer dst off = do
    b ← deref buffer nil_buffer
    reject_if b.closed buffer_closed
    reject_if (ltb_ℤ off (pos 0) || dst.len == 0) invalid_length
    reject_if (past_end (to_uint off) dst.len b.length) out_of_range
    run d b.ctx g
        (Call.memcpy_dtoh dst.addr (offset_ptr b (to_uint off)) (u64 (dst.len * elem_size b.elem)))

  -- The tests on the counts and offsets that the two device copies share.
  abbrev check_ranges : Buffer → Buffer → ℤ → ℤ → ℤ → M W (Unit {0})
  check_ranges b dst dst_off src_off n = do
    reject_if (leb_ℤ n (pos 0) || (ltb_ℤ src_off (pos 0) || ltb_ℤ dst_off (pos 0))) invalid_length
    reject_if
        (past_end (to_uint src_off) (to_uint n) b.length
          || past_end (to_uint dst_off) (to_uint n) dst.length)
        out_of_range

  -- `CopyToDeviceAt`
  unfoldable pub copy_to_device_at :
      GoContext → Option Buffer → ℤ → Option Buffer → ℤ → ℤ → M W (Unit {0})
  copy_to_device_at g buffer dst_off target src_off n = do
    b ← deref buffer nil_buffer
    dst ← deref target nil_buffer
    reject_if b.closed buffer_closed
    reject_if dst.closed buffer_closed
    reject_if (not (dst.ctx == b.ctx)) context_mismatch
    check_ranges b dst dst_off src_off n
    run d b.ctx g (
        Call.memcpy_dtod (offset_ptr dst (to_uint dst_off)) (offset_ptr b (to_uint src_off))
          (u64 (to_uint n * elem_size b.elem)))

  -- `CopyToDeviceAtAsync`
  unfoldable pub copy_to_device_at_async :
      GoContext → Option Buffer → Option Stream → ℤ → Option Buffer → ℤ → ℤ → M W (Unit {0})
  copy_to_device_at_async g buffer stream dst_off target src_off n = do
    b ← deref buffer nil_buffer
    dst ← deref target nil_buffer
    st ← deref stream nil_stream
    reject_if st.closed stream_closed
    reject_if b.closed buffer_closed
    reject_if dst.closed buffer_closed
    reject_if (not (st.ctx == b.ctx) || not (dst.ctx == b.ctx)) context_mismatch
    check_ranges b dst dst_off src_off n
    run d b.ctx g (
        Call.memcpy_dtod_async (offset_ptr dst (to_uint dst_off)) (offset_ptr b (to_uint src_off))
          (u64 (to_uint n * elem_size b.elem)) st.raw)
