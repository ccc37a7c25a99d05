-- ===== src/Pitched.antt =====
-- cuda/pitched.go, and its copies of cuda/pinned_async.go and cuda/dispatch.go: two-dimensional device memory
-- whose rows the driver pads to a pitch.
pub mod Bounds
use gocudrv.Base.{
  ℕ, ◌*◌, ◌/◌, Bool, true, false, ◌||◌, not, Option, none, some, ◌==◌, if◌then◌else◌, ltb, ℤ, pos,
  leb_ℤ, to_uint,
}
use gocudrv.Driver.Errors.{
  Err, sentinel, nil_context, nil_buffer, nil_stream, stream_closed, buffer_closed,
  context_mismatch, invalid_length, length_mismatch,
}
use gocudrv.Driver.{Driver}
use gocudrv.Driver.Desc.{Memcpy2d, host, device}
use gocudrv.Driver.Calls.{mem_free}
use gocudrv.Driver.Memory.{mem_alloc_pitch, memcpy_2d, memcpy_2d_async}
use gocudrv.Context.Exec.{GoContext, background}
use gocudrv.Context.State.{Store, M, ◌>>=◌, ◌>>◌, pure, fail}
use gocudrv.Context.Run.{do_plain, do_copy, do_job}
use gocudrv.Buffer.{Elem, elem_size, Slice, Stream, Pinned, reject_if, deref, max_uint64, u64}
use gocudrv.Closing.{close_once}

-- `PitchedBuffer`, with its element type.
pub record PitchedBuffer : Type 0 where
  pub ctx : ℕ
  pub elem : Elem
  pub ptr : ℕ
  pub pitch : ℕ
  pub width : ℕ
  pub height : ℕ
  pub closed : Bool

-- `math.MaxInt`
abbrev pub max_int : ℕ
max_int = 9223372036854775807

-- The error of `elements`: the number of elements must be an `int`.
abbrev pub too_many : PitchedBuffer → Bool
too_many b = ltb (max_int / b.height) b.width

abbrev pub row_bytes : PitchedBuffer → ℕ
row_bytes b = u64 (b.width * elem_size b.elem)

-- The descriptors of the copies from packed host memory, into it, and between buffers.
abbrev pub from_host : PitchedBuffer → ℕ → Memcpy2d
from_host b addr = record {
  src_type = host;
  src = addr;
  src_pitch = row_bytes b;
  dst_type = device;
  dst = b.ptr;
  dst_pitch = b.pitch;
  width_bytes = row_bytes b;
  height = b.height;
}

abbrev pub to_host : PitchedBuffer → ℕ → Memcpy2d
to_host b addr = record {
  src_type = device;
  src = b.ptr;
  src_pitch = b.pitch;
  dst_type = host;
  dst = addr;
  dst_pitch = row_bytes b;
  width_bytes = row_bytes b;
  height = b.height;
}

abbrev pub between : PitchedBuffer → PitchedBuffer → Memcpy2d
between a b = record {
  src_type = device;
  src = a.ptr;
  src_pitch = a.pitch;
  dst_type = device;
  dst = b.ptr;
  dst_pitch = b.pitch;
  width_bytes = row_bytes a;
  height = a.height;
}

abbrev differ : PitchedBuffer → PitchedBuffer → Bool
differ a b = not (b.width == a.width) || not (b.height == a.height)

module _ {W : Type 0} (d : Driver W) where
  -- `memcpy2D` and `memcpy2DAsync` of a Context
  unfoldable pub copy_2d : ℕ → GoContext → Memcpy2d → M W (Unit {0})
  unfolding do_copy
  copy_2d c g desc = do_copy d c g (memcpy_2d d desc)

  unfoldable pub copy_2d_async : ℕ → GoContext → Memcpy2d → ℕ → M W (Unit {0})
  unfolding do_job
  copy_2d_async c g desc stream = do_job d c g (memcpy_2d_async d desc stream)

  -- `AllocPitched`
  unfoldable pub alloc_pitched : Elem → Option ℕ → ℤ → ℤ → M W PitchedBuffer
  alloc_pitched t ctx width height = do
    c ← deref ctx nil_context
    reject_if (leb_ℤ width (pos 0) || leb_ℤ height (pos 0)) invalid_length
    reject_if (ltb (max_uint64 / elem_size t) (to_uint width)) invalid_length
    p ← do_plain d c background (
        mem_alloc_pitch d (u64 (to_uint width * elem_size t)) (to_uint height)
          (if elem_size t == 8 then 8 else 4))
    pure (record {
      ctx = c;
      elem = t;
      ptr = p.0;
      pitch = p.1;
      width = to_uint width;
      height = to_uint height;
      closed = false;
    })

  -- `CopyFrom`
  unfoldable pub copy_from : GoContext → Option PitchedBuffer → Slice → M W (Unit {0})
  copy_from g buffer src = do
    b ← deref buffer nil_buffer
    reject_if b.closed buffer_closed
    reject_if (too_many b) invalid_length
    reject_if (not (src.len == b.width * b.height)) length_mismatch
    copy_2d b.ctx g (from_host b src.addr)

  -- `CopyTo`
  unfoldable pub copy_to : GoContext → Option PitchedBuffer → Slice → M W (Unit {0})
  copy_to g buffer dst = do
    b ← deref buffer nil_buffer
    reject_if b.closed buffer_closed
    reject_if (too_many b) invalid_length
    reject_if (not (dst.len == b.width * b.height)) length_mismatch
    copy_2d b.ctx g (to_host b dst.addr)

  -- `CopyToDevice`
  unfoldable pub copy_to_device :
      GoContext → Option PitchedBuffer → Option PitchedBuffer → M W (Unit {0})
  copy_to_device g src dst = do
    a ← deref src nil_buffer
    b ← deref dst nil_buffer
    reject_if (a.closed || b.closed) buffer_closed
    reject_if (not (b.ctx == a.ctx)) context_mismatch
    reject_if (differ a b) length_mismatch
    copy_2d a.ctx g (between a b)

  -- `CopyFromHostAsync`, with the result of `pinnedHostRefOf`
  unfoldable pub copy_from_host_async :
      GoContext → Option PitchedBuffer → Option Stream → Option Pinned → M W (Unit {0})
  copy_from_host_async g buffer stream src = do
    b ← deref buffer nil_buffer
    pinned ← deref src nil_buffer
    st ← deref stream nil_stream
    reject_if st.closed stream_closed
    reject_if b.closed buffer_closed
    reject_if pinned.closed buffer_closed
    reject_if (not (st.ctx == b.ctx) || not (pinned.ctx == b.ctx)) context_mismatch
    reject_if (too_many b) invalid_length
    reject_if (not (pinned.length == b.width * b.height)) length_mismatch
    copy_2d_async b.ctx g (from_host b pinned.ptr) st.raw

  -- `CopyToHostAsync`
  unfoldable pub copy_to_host_async :
      GoContext → Option PitchedBuffer → Option Stream → Option Pinned → M W (Unit {0})
  copy_to_host_async g buffer stream dst = do
    b ← deref buffer nil_buffer
    pinned ← deref dst nil_buffer
    st ← deref stream nil_stream
    reject_if st.closed stream_closed
    reject_if b.closed buffer_closed
    reject_if pinned.closed buffer_closed
    reject_if (not (st.ctx == b.ctx) || not (pinned.ctx == b.ctx)) context_mismatch
    reject_if (too_many b) invalid_length
    reject_if (not (pinned.length == b.width * b.height)) length_mismatch
    copy_2d_async b.ctx g (to_host b pinned.ptr) st.raw

  -- `CopyToDeviceAsync`
  unfoldable pub copy_to_device_async :
      GoContext → Option PitchedBuffer → Option Stream → Option PitchedBuffer → M W (Unit {0})
  copy_to_device_async g src stream dst = do
    a ← deref src nil_buffer
    b ← deref dst nil_buffer
    st ← deref stream nil_stream
    reject_if st.closed stream_closed
    reject_if (a.closed || b.closed) buffer_closed
    reject_if (not (st.ctx == a.ctx) || not (b.ctx == a.ctx)) context_mismatch
    reject_if (differ a b) length_mismatch
    copy_2d_async a.ctx g (between a b) st.raw

  -- `Close`
  unfoldable pub close :
      Option PitchedBuffer → Store W → Option Err × Option PitchedBuffer × Store W
  unfolding close_once
  close none s = (some (sentinel nil_buffer), none, s)
  close (some b) s =
      let (e, now, s') = close_once d b.closed b.ctx (mem_free d b.ptr) s in
      (e, some (record b { closed = now }), s')
