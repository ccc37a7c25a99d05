-- ===== src/Volume.antt =====
-- cuda/volume.go, its copies of cuda/pinned_async.go and those of cuda/dispatch.go: three-dimensional device
-- memory, which is laid out as slices of rows that the driver pads to a pitch.
pub mod Bounds
pub mod Allocation
mod Tests
use gocudrv.Base.{
  ℕ, ◌*◌, ◌/◌, Bool, false, ◌||◌, not, Option, none, some, ◌==◌, if◌then◌else◌, ltb, ℤ, pos, leb_ℤ,
  to_uint,
}
use gocudrv.Driver.Errors.{
  Err, sentinel, nil_context, nil_buffer, nil_stream, stream_closed, buffer_closed,
  context_mismatch, invalid_length, length_mismatch,
}
use gocudrv.Driver.{Driver}
use gocudrv.Driver.Desc.{Memcpy3d, host, device}
use gocudrv.Driver.Calls.{mem_free}
use gocudrv.Driver.Memory.{mem_alloc_pitch}
use gocudrv.Driver.Objects.{memcpy_3d, memcpy_3d_async}
use gocudrv.Context.Exec.{GoContext, background}
use gocudrv.Context.State.{Store, M, ◌>>=◌, ◌>>◌, pure}
use gocudrv.Context.Run.{do_plain, do_copy, do_job}
use gocudrv.Buffer.{Elem, elem_size, Slice, Stream, Pinned, reject_if, deref, max_uint64, u64}
use gocudrv.Pitched.{max_int}
use gocudrv.Closing.{close_once}

-- `Volume`, with its element type.
pub record Volume : Type 0 where
  pub ctx : ℕ
  pub elem : Elem
  pub ptr : ℕ
  pub pitch : ℕ
  pub width : ℕ
  pub height : ℕ
  pub depth : ℕ
  pub closed : Bool

-- Whether the number of elements of three positive dimensions is more than an `int` holds.
abbrev pub too_many : ℕ → ℕ → ℕ → Bool
too_many width height depth = ltb (max_int / height) width || ltb (max_int / depth) (width * height)

-- The length of a packed copy of the volume.
abbrev pub elements : Volume → ℕ
elements v = v.width * v.height * v.depth

abbrev pub has_too_many : Volume → Bool
has_too_many v = too_many v.width v.height v.depth

abbrev pub row_bytes : Volume → ℕ
row_bytes v = u64 (v.width * elem_size v.elem)

-- `hostDesc`, from packed host memory and into it.
abbrev pub from_host : Volume → ℕ → Memcpy3d
from_host v addr = record {
  src_type = host;
  src = addr;
  src_pitch = row_bytes v;
  src_height = v.height;
  dst_type = device;
  dst = v.ptr;
  dst_pitch = v.pitch;
  dst_height = v.height;
  width_bytes = row_bytes v;
  height = v.height;
  depth = v.depth;
}

abbrev pub to_host : Volume → ℕ → Memcpy3d
to_host v addr = record {
  src_type = device;
  src = v.ptr;
  src_pitch = v.pitch;
  src_height = v.height;
  dst_type = host;
  dst = addr;
  dst_pitch = row_bytes v;
  dst_height = v.height;
  width_bytes = row_bytes v;
  height = v.height;
  depth = v.depth;
}

-- The size of a new volume in bytes does not fit 64 bits, given its row and its rows.
abbrev pub overflows : Elem → ℕ → ℕ → ℕ → Bool
overflows t width height depth =
    ltb (max_uint64 / (u64 (height * depth))) (u64 (width * elem_size t))

module _ {W : Type 0} (d : Driver W) where
  -- `memcpy3D` and `memcpy3DAsync` of a Context
  unfoldable pub copy_3d : ℕ → GoContext → Memcpy3d → M W (Unit {0})
  unfolding do_copy
  copy_3d c g desc = do_copy d c g (memcpy_3d d desc)

  unfoldable pub copy_3d_async : ℕ → GoContext → Memcpy3d → ℕ → M W (Unit {0})
  unfolding do_job
  copy_3d_async c g desc stream = do_job d c g (memcpy_3d_async d desc stream)

  -- The command of `AllocVolume` and the volume that it makes, for dimensions that are accepted.
  unfoldable pub make_volume : Elem → ℕ → ℕ → ℕ → ℕ → M W Volume
  make_volume t c width height depth = do
    p ← do_plain d c background (
        mem_alloc_pitch d (u64 (width * elem_size t)) (u64 (height * depth))
          (if elem_size t == 8 then 8 else 4))
    pure (record {
      ctx = c;
      elem = t;
      ptr = p.0;
      pitch = p.1;
      width = width;
      height = height;
      depth = depth;
      closed = false;
    })

  -- `AllocVolume`
  unfoldable pub alloc_volume : Elem → Option ℕ → ℤ → ℤ → ℤ → M W Volume
  unfolding make_volume
  alloc_volume t ctx width height depth = do
    c ← deref ctx nil_context
    reject_if (leb_ℤ width (pos 0) || leb_ℤ height (pos 0) || leb_ℤ depth (pos 0)) invalid_length
    reject_if (ltb (max_uint64 / elem_size t) (to_uint width)) invalid_length
    reject_if (too_many (to_uint width) (to_uint height) (to_uint depth)) invalid_length
    reject_if (overflows t (to_uint width) (to_uint height) (to_uint depth)) invalid_length
    make_volume t c (to_uint width) (to_uint height) (to_uint depth)

  -- `CopyFrom`
  unfoldable pub copy_from : GoContext → Option Volume → Slice → M W (Unit {0})
  copy_from g volume src = do
    v ← deref volume nil_buffer
    reject_if v.closed buffer_closed
    reject_if (has_too_many v) invalid_length
    reject_if (not (src.len == elements v)) length_mismatch
    copy_3d v.ctx g (from_host v src.addr)

  -- `CopyTo`
  unfoldable pub copy_to : GoContext → Option Volume → Slice → M W (Unit {0})
  copy_to g volume dst = do
    v ← deref volume nil_buffer
    reject_if v.closed buffer_closed
    reject_if (has_too_many v) invalid_length
    reject_if (not (dst.len == elements v)) length_mismatch
    copy_3d v.ctx g (to_host v dst.addr)

  -- `CopyFromHostAsync`, with the result of `pinnedHostRefOf`
  unfoldable pub copy_from_host_async :
      GoContext → Option Volume → Option Stream → Option Pinned → M W (Unit {0})
  copy_from_host_async g volume stream src = do
    v ← deref volume nil_buffer
    pinned ← deref src nil_buffer
    st ← deref stream nil_stream
    reject_if st.closed stream_closed
    reject_if v.closed buffer_closed
    reject_if pinned.closed buffer_closed
    reject_if (not (st.ctx == v.ctx) || not (pinned.ctx == v.ctx)) context_mismatch
    reject_if (has_too_many v) invalid_length
    reject_if (not (pinned.length == elements v)) length_mismatch
    copy_3d_async v.ctx g (from_host v pinned.ptr) st.raw

  -- `CopyToHostAsync`
  unfoldable pub copy_to_host_async :
      GoContext → Option Volume → Option Stream → Option Pinned → M W (Unit {0})
  copy_to_host_async g volume stream dst = do
    v ← deref volume nil_buffer
    pinned ← deref dst nil_buffer
    st ← deref stream nil_stream
    reject_if st.closed stream_closed
    reject_if v.closed buffer_closed
    reject_if pinned.closed buffer_closed
    reject_if (not (st.ctx == v.ctx) || not (pinned.ctx == v.ctx)) context_mismatch
    reject_if (has_too_many v) invalid_length
    reject_if (not (pinned.length == elements v)) length_mismatch
    copy_3d_async v.ctx g (to_host v pinned.ptr) st.raw

  -- `Close`
  unfoldable pub close : Option Volume → Store W → Option Err × Option Volume × Store W
  unfolding close_once
  close none s = (some (sentinel nil_buffer), none, s)
  close (some v) s =
      let (e, now, s') = close_once d v.closed v.ctx (mem_free d v.ptr) s in
      (e, some (record v { closed = now }), s')
