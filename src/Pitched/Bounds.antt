-- ===== src/Pitched/Bounds.antt =====
-- The memory that the copies of a pitched buffer reach.
use gocudrv.Base.{
  ℕ, suc, ◌+◌, ◌*◌, ◌≤◌, ◌<◌, ◌≡◌, ◌≢◌, ◌⊎◌, inl, inr, refl, sym, true, false, some, arith,
  Bool-cases, ◌==◌,
}
use gocudrv.Driver.Errors.{Err, err, sentinel, invalid_length, length_mismatch}
use gocudrv.Driver.{Driver}
use gocudrv.Driver.Desc.{Memcpy2d, host, device}
use gocudrv.Context.Exec.{GoContext}
use gocudrv.Context.State.{Store}
use gocudrv.Buffer.{elem_size, Slice}
use gocudrv.Pitched.{
  PitchedBuffer, max_int, too_many, row_bytes, from_host, to_host, copy_2d, copy_from, copy_to,
}
use native.Mathlib.Nat.{mul-le-mul_right, le-div_iff_mul-le, mul_assoc, mul_comm}

-- A live pitched allocation: it is not empty, and the pitch, which the driver chose, has room for a row.
pub record Valid (b : PitchedBuffer) : Type 0 where
  pub rows : 0 < b.height
  pub room : b.width * elem_size b.elem ≤ b.pitch
  pub fits : b.pitch < 18446744073709551616

-- Row `r` of a copy lies within `size` bytes, and before row `r + 1`.
abbrev pub RowInside : ℕ → ℕ → ℕ → ℕ → Type 0
RowInside r pitch width size = (r * pitch + width ≤ size) × (r * pitch + width ≤ suc r * pitch)

-- Every row lies within the allocation on the device and within the slice, and the rows are the slice.
abbrev pub RowsInside : ℕ → ℕ → ℕ → ℕ → PitchedBuffer → Slice → Type 0
RowsInside host_pitch device_pitch width height b x =
    ((r : ℕ)
      → r < height
      → RowInside r device_pitch width (b.height * b.pitch)
        × RowInside r host_pitch width (x.len * elem_size b.elem))
    × (height * width ≡ x.len * elem_size b.elem)

-- A copy of a slice into a buffer, and of a buffer into a slice.
abbrev pub CopiesIn : Memcpy2d → PitchedBuffer → Slice → Type 0
CopiesIn desc b x =
    (desc.src_type ≡ host)
    × (desc.src ≡ x.addr)
    × (desc.dst_type ≡ device)
    × (desc.dst ≡ b.ptr)
    × RowsInside desc.src_pitch desc.dst_pitch desc.width_bytes desc.height b x

abbrev pub CopiesOut : Memcpy2d → PitchedBuffer → Slice → Type 0
CopiesOut desc b x =
    (desc.src_type ≡ device)
    × (desc.src ≡ b.ptr)
    × (desc.dst_type ≡ host)
    × (desc.dst ≡ x.addr)
    × RowsInside desc.dst_pitch desc.src_pitch desc.width_bytes desc.height b x

pub row_inside : (r p w h : ℕ) → r < h → w ≤ p → RowInside r p w (h * p)
row_inside r p w h l k =
    let e : suc r * p ≤ h * p = mul-le-mul_right p l in (omega (arith, e, k), omega (arith, k))

-- The outcomes of a copy of a slice.
abbrev pub Outcomes : PitchedBuffer → Slice → (Err → Type 0) → Type 0 → Type 0
Outcomes b x Refused Runs =
    ((max_int < b.width * b.height) × Refused (sentinel invalid_length))
    ⊎ ((b.width * b.height ≤ max_int)
        × (x.len ≢ b.width * b.height)
        × Refused (sentinel length_mismatch))
    ⊎ ((b.width * b.height ≤ max_int) × (x.len ≡ b.width * b.height) × Runs)

packed_size : (w h t : ℕ) → w * h * t ≡ h * (w * t)
packed_size w h t = rw (mul_comm w h) (mul_assoc h w t)

row_bytes_lem : (b : PitchedBuffer) → Valid b → row_bytes b ≡ b.width * elem_size b.elem
row_bytes_lem b v = let p = v.room in let q = v.fits in ground arith

too_many_lem :
    (b : PitchedBuffer)
    → 0 < b.height
    → ((too_many b ≡ true) × (max_int < b.width * b.height))
      ⊎ ((too_many b ≡ false) × (b.width * b.height ≤ max_int))
too_many_lem b h =
    let (p, q) = le-div_iff_mul-le {k = b.height} {x = b.width} {y = max_int} h in ground arith

rows_inside :
    (b : PitchedBuffer) (x : Slice)
    → Valid b
    → x.len ≡ b.width * b.height
    → RowsInside (row_bytes b) b.pitch (row_bytes b) b.height b x
rows_inside b x v e =
    let w = row_bytes_lem b v in
    let k : row_bytes b ≤ b.pitch = omega (arith, w, v.room) in
    let size : x.len * elem_size b.elem ≡ b.height * row_bytes b =
      rw (e, w) (packed_size b.width b.height (elem_size b.elem)) in
    (
      (λ r l. (
        row_inside r b.pitch (row_bytes b) b.height l k,
        rw size (row_inside r (row_bytes b) (row_bytes b) b.height l (omega arith)),
      )),
      sym size,
    )

module _ {W : Type 0} (d : Driver W) (g : GoContext) (b : PitchedBuffer) (v : Valid b)
    (is_open : b.closed ≡ false) where
  outcomes :
      (x : Slice) (Refused : Err → Type 0) (Runs : Type 0)
      → (too_many b ≡ true → Refused (sentinel invalid_length))
      → (too_many b ≡ false
          → (x.len == b.width * b.height) ≡ false
          → Refused (sentinel length_mismatch))
      → (too_many b ≡ false
          → (x.len == b.width * b.height) ≡ true
          → RowsInside (row_bytes b) b.pitch (row_bytes b) b.height b x
          → Runs)
      → Outcomes b x Refused Runs
  outcomes x Refused Runs h k l = elim (too_many_lem b v.rows) [
    | inl (e, m) ↦ inl (m, h e)
    | inr (e, m) ↦ elim (Bool-cases (x.len == b.width * b.height)) [
      | inr f ↦ inr (inl (m, ground arith, k e f))
      | inl f ↦
          let same : x.len ≡ b.width * b.height = ground arith in
          inr (inr (m, same, l e f (rows_inside b x v same)))
    ]
  ]

  -- On an open pitched buffer whose pitch has room for a row, `CopyFrom` refuses a buffer with more elements than
  -- an `int` counts with `ErrInvalidLength`, and a slice of another length than the buffer's number of
  -- elements with `ErrLengthMismatch`, the store unchanged; any other slice is copied by one call from the
  -- slice to the buffer, whose rows are all the bytes of the slice, each inside the slice and inside the
  -- allocation, and each ending before the next row begins.
  pitched-copy_from_inside :
      (src : Slice) (s : Store W)
      → Outcomes b src
          (λ e. copy_from d g (some b) src s ≡ (err e, s))
          ((desc : Memcpy2d) × CopiesIn desc b src
            × (copy_from d g (some b) src s ≡ copy_2d d b.ctx g desc s))
  unfolding copy_from
  pitched-copy_from_inside src s =
      outcomes src (λ e. copy_from d g (some b) src s ≡ (err e, s))
        ((desc : Memcpy2d) × CopiesIn desc b src
          × (copy_from d g (some b) src s ≡ copy_2d d b.ctx g desc s))
        (λ e. rw (is_open, e) refl) (λ e f. rw (is_open, e, f) refl)
        (λ e f r. (from_host b src.addr, (refl, refl, refl, refl, r), rw (is_open, e, f) refl))

  pitched-copy_to_inside :
      (dst : Slice) (s : Store W)
      → Outcomes b dst
          (λ e. copy_to d g (some b) dst s ≡ (err e, s))
          ((desc : Memcpy2d) × CopiesOut desc b dst
            × (copy_to d g (some b) dst s ≡ copy_2d d b.ctx g desc s))
  unfolding copy_to
  pitched-copy_to_inside dst s =
      outcomes dst (λ e. copy_to d g (some b) dst s ≡ (err e, s))
        ((desc : Memcpy2d) × CopiesOut desc b dst
          × (copy_to d g (some b) dst s ≡ copy_2d d b.ctx g desc s))
        (λ e. rw (is_open, e) refl) (λ e f. rw (is_open, e, f) refl)
        (λ e f r. (to_host b dst.addr, (refl, refl, refl, refl, r), rw (is_open, e, f) refl))
