-- ===== src/Driver/Desc.antt =====
-- cudasys: the descriptors of two- and three-dimensional copies.
use gocudrv.Base.{ℕ}

-- `MemoryTypeHost`, `MemoryTypeDevice` and `MemoryTypeArray`
pub data MemoryType : Type 0 where
  host device array : MemoryType

-- `Memcpy2D`: for each side its kind of memory, its address or the handle of its array, and its row stride, which
-- is zero for an array; then the bytes of a row and the number of rows. The offsets of the source stay zero.
pub record Memcpy2d : Type 0 where
  pub src_type : MemoryType
  pub src : ℕ
  pub src_pitch : ℕ
  pub dst_type : MemoryType
  pub dst : ℕ
  pub dst_pitch : ℕ
  pub width_bytes : ℕ
  pub height : ℕ

-- `Memcpy3D`: for each side also the rows of a slice; then the bytes of a row, the rows of a slice and the slices.
pub record Memcpy3d : Type 0 where
  pub src_type : MemoryType
  pub src : ℕ
  pub src_pitch : ℕ
  pub src_height : ℕ
  pub dst_type : MemoryType
  pub dst : ℕ
  pub dst_pitch : ℕ
  pub dst_height : ℕ
  pub width_bytes : ℕ
  pub height : ℕ
  pub depth : ℕ
