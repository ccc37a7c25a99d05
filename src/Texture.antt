-- ===== src/Texture.antt =====
-- cuda/texture.go and cuda/surface.go, and the array copies of cuda/pinned_async.go: CUDA arrays, and the
-- textures and surfaces over them, which need an open array only when they are made.
pub mod Lifecycle
use gocudrv.Base.{
  ℕ, ◌*◌, ◌/◌, ◌+◌, Bool, true, false, ◌||◌, not, Option, none, some, List, [], ◌∷◌, ◌==◌,
  if◌then◌else◌, ltb, ℤ, pos, leb_ℤ, to_uint,
}
use gocudrv.Driver.Errors.{
  Err, sentinel, nil_context, nil_buffer, nil_stream, stream_closed, buffer_closed,
  context_mismatch, invalid_length, length_mismatch, nil_array, array_closed, nil_texture,
  unsupported_element, nil_surface, no_surface_store,
}
use gocudrv.Driver.{Driver}
use gocudrv.Driver.Desc.{Memcpy2d, host, array}
use gocudrv.Driver.Objects.{
  array_create, array_3d_create, array_destroy, tex_object_create, tex_object_destroy,
  surf_object_create, surf_object_destroy,
}
use gocudrv.Context.Exec.{GoContext, background}
use gocudrv.Context.State.{Store, M, ◌>>=◌, ◌>>◌, pure, fail}
use gocudrv.Context.Run.{do_plain}
use gocudrv.Buffer.{Elem, elem_size, Slice, Stream, Pinned, reject_if, deref, u64}
use gocudrv.Pitched.{max_int, copy_2d, copy_2d_async}
use gocudrv.Closing.{close_once}

-- `Array2D`, with its element type.
pub record Array2d : Type 0 where
  pub ctx : ℕ
  pub elem : Elem
  pub handle : ℕ
  pub width : ℕ
  pub height : ℕ
  pub surface : Bool
  pub closed : Bool

-- `Texture` and `Surface`, which have the same fields.
pub record Texture : Type 0 where
  pub ctx : ℕ
  pub handle : ℕ
  pub closed : Bool

pub record Surface : Type 0 where
  pub ctx : ℕ
  pub handle : ℕ
  pub closed : Bool

-- `TextureConfig`
pub record TextureConfig : Type 0 where
  pub address_mode : ℕ
  pub filter_mode : ℕ
  pub normalized_coordinates : Bool

-- `arrayFormat`: the format of an element and whether it is an integer; elements of 8 bytes have none.
abbrev pub array_format : Elem → Option (ℕ × Bool)
array_format Elem.uint8 = some (1, true)
array_format Elem.uint16 = some (2, true)
array_format Elem.uint32 = some (3, true)
array_format Elem.int8 = some (8, true)
array_format Elem.int16 = some (9, true)
array_format Elem.int32 = some (10, true)
array_format Elem.float32 = some (32, false)
array_format _ = none

-- `WithSurfaceStore`, the only option of `AllocArray2D`, where a nil option is skipped.
pub data ArrayOption : Type 0 where
  with_surface_store : ArrayOption

unfoldable pub wants_surface : List (Option ArrayOption) → Bool → Bool
wants_surface [] b = b
wants_surface (none ∷ opts) b = wants_surface opts b
wants_surface (some with_surface_store ∷ opts) b = wants_surface opts true

-- `ArraySurfaceLoadStore`, `TexReadAsInteger` and `TexNormalizedCoordinate`
abbrev surface_load_store : ℕ
surface_load_store = 2

abbrev pub texture_flags : Bool → Bool → ℕ
texture_flags normalized integer = (if normalized then 2 else 0) + (if integer then 1 else 0)

-- `hostDesc`, from packed host memory and into it.
abbrev pub to_array : Array2d → ℕ → Memcpy2d
to_array a addr = record {
  src_type = host;
  src = addr;
  src_pitch = u64 (a.width * elem_size a.elem);
  dst_type = array;
  dst = a.handle;
  dst_pitch = 0;
  width_bytes = u64 (a.width * elem_size a.elem);
  height = a.height;
}

abbrev pub from_array : Array2d → ℕ → Memcpy2d
from_array a addr = record {
  src_type = array;
  src = a.handle;
  src_pitch = 0;
  dst_type = host;
  dst = addr;
  dst_pitch = u64 (a.width * elem_size a.elem);
  width_bytes = u64 (a.width * elem_size a.elem);
  height = a.height;
}

module _ {W : Type 0} (d : Driver W) where
  -- The format of an element, or the error of an element that has none.
  abbrev format_of : Elem → M W (ℕ × Bool)
  format_of t = elim (array_format t) [
    | none ↦ fail (sentinel unsupported_element)
    | some f ↦ pure f
  ]

  -- The command of `AllocArray2D`
  abbrev create_array : Bool → ℕ → ℕ → ℕ → ℕ → M W ℕ
  create_array surface c width height format = do_plain d c background (
      if surface
      then array_3d_create d width height format surface_load_store
      else array_create d width height format)

  -- `AllocArray2D`
  unfoldable pub alloc_array : Elem → Option ℕ → ℤ → ℤ → List (Option ArrayOption) → M W Array2d
  unfolding wants_surface
  alloc_array t ctx width height opts = do
    c ← deref ctx nil_context
    reject_if (leb_ℤ width (pos 0) || leb_ℤ height (pos 0)) invalid_length
    reject_if (ltb (max_int / to_uint height) (to_uint width)) invalid_length
    f ← format_of t
    h ← create_array (wants_surface opts false) c (to_uint width) (to_uint height) f.0
    pure (record {
      ctx = c;
      elem = t;
      handle = h;
      width = to_uint width;
      height = to_uint height;
      surface = wants_surface opts false;
      closed = false;
    })

  -- `CopyFrom`
  unfoldable pub copy_from : GoContext → Option Array2d → Slice → M W (Unit {0})
  copy_from g arr src = do
    a ← deref arr nil_array
    reject_if a.closed array_closed
    reject_if (not (src.len == a.width * a.height)) length_mismatch
    copy_2d d a.ctx g (to_array a src.addr)

  -- `CopyTo`
  unfoldable pub copy_to : GoContext → Option Array2d → Slice → M W (Unit {0})
  copy_to g arr dst = do
    a ← deref arr nil_array
    reject_if a.closed array_closed
    reject_if (not (dst.len == a.width * a.height)) length_mismatch
    copy_2d d a.ctx g (from_array a dst.addr)

  -- `CopyFromHostAsync`, with the result of `pinnedHostRefOf`
  unfoldable pub copy_from_host_async :
      GoContext → Option Array2d → Option Stream → Option Pinned → M W (Unit {0})
  copy_from_host_async g arr stream src = do
    a ← deref arr nil_array
    pinned ← deref src nil_buffer
    st ← deref stream nil_stream
    reject_if st.closed stream_closed
    reject_if a.closed array_closed
    reject_if pinned.closed buffer_closed
    reject_if (not (st.ctx == a.ctx) || not (pinned.ctx == a.ctx)) context_mismatch
    reject_if (not (pinned.length == a.width * a.height)) length_mismatch
    copy_2d_async d a.ctx g (to_array a pinned.ptr) st.raw

  -- `CopyToHostAsync`
  unfoldable pub copy_to_host_async :
      GoContext → Option Array2d → Option Stream → Option Pinned → M W (Unit {0})
  copy_to_host_async g arr stream dst = do
    a ← deref arr nil_array
    pinned ← deref dst nil_buffer
    st ← deref stream nil_stream
    reject_if st.closed stream_closed
    reject_if a.closed array_closed
    reject_if pinned.closed buffer_closed
    reject_if (not (st.ctx == a.ctx) || not (pinned.ctx == a.ctx)) context_mismatch
    reject_if (not (pinned.length == a.width * a.height)) length_mismatch
    copy_2d_async d a.ctx g (from_array a pinned.ptr) st.raw

  -- `Close` of an array, a texture and a surface
  unfoldable pub close_array : Option Array2d → Store W → Option Err × Option Array2d × Store W
  unfolding close_once
  close_array none s = (some (sentinel nil_array), none, s)
  close_array (some a) s =
      let (e, now, s') = close_once d a.closed a.ctx (array_destroy d a.handle) s in
      (e, some (record a { closed = now }), s')

  unfoldable pub close_texture : Option Texture → Store W → Option Err × Option Texture × Store W
  unfolding close_once
  close_texture none s = (some (sentinel nil_texture), none, s)
  close_texture (some x) s =
      let (e, now, s') = close_once d x.closed x.ctx (tex_object_destroy d x.handle) s in
      (e, some (record x { closed = now }), s')

  unfoldable pub close_surface : Option Surface → Store W → Option Err × Option Surface × Store W
  unfolding close_once
  close_surface none s = (some (sentinel nil_surface), none, s)
  close_surface (some x) s =
      let (e, now, s') = close_once d x.closed x.ctx (surf_object_destroy d x.handle) s in
      (e, some (record x { closed = now }), s')

  -- `NewTexture`
  unfoldable pub new_texture : Option Array2d → TextureConfig → M W Texture
  new_texture arr cfg = do
    a ← deref arr nil_array
    reject_if a.closed array_closed
    f ← format_of a.elem
    h ← do_plain d a.ctx background (
        tex_object_create d a.handle cfg.address_mode cfg.filter_mode
          (texture_flags cfg.normalized_coordinates f.1))
    pure (record { ctx = a.ctx; handle = h; closed = false })

  -- `NewSurface`
  unfoldable pub new_surface : Option Array2d → M W Surface
  new_surface arr = do
    a ← deref arr nil_array
    reject_if a.closed array_closed
    reject_if (not a.surface) no_surface_store
    h ← do_plain d a.ctx background (surf_object_create d a.handle)
    pure (record { ctx = a.ctx; handle = h; closed = false })
