-- ===== src/Volume/Bounds.antt =====
-- The memory that the copies of a volume reach.
use gocudrv.Base.{
  ℕ, suc, ◌+◌, ◌*◌, ◌≤◌, ◌<◌, ◌≡◌, ◌≢◌, ◌⊎◌, inl, inr, refl, sym, true, false, some, arith,
  Bool-cases, ◌==◌,
}
use gocudrv.Driver.Errors.{Err, err, sentinel, invalid_length, length_mismatch}
use gocudrv.Driver.{Driver}
use gocudrv.Driver.Desc.{Memcpy3d, host, device}
use gocudrv.Context.Exec.{GoContext}
use gocudrv.Context.State.{Store}
use gocudrv.Buffer.{elem_size, Slice}
use gocudrv.Pitched.{max_int}
use gocudrv.Pitched.Bounds.{RowInside, row_inside}
use gocudrv.Volume.{
  Volume, too_many, has_too_many, elements, row_bytes, from_host, to_host, copy_3d, copy_from,
  copy_to,
}
use native.Mathlib.Nat.{mul-le-mul_left, mul-le-mul_right, le-div_iff_mul-le, mul_assoc, mul_comm}

-- A live volume: it is not empty, and the pitch, which the driver chose, has room for a row.
pub record Valid (v : Volume) : Type 0 where
  pub rows : 0 < v.height
  pub slices : 0 < v.depth
  pub room : v.width * elem_size v.elem ≤ v.pitch
  pub fits : v.pitch < 18446744073709551616

-- Row `r` of slice `k`, of slices of `height` rows, lies within `size` bytes, and before the row after it.
abbrev pub SliceRowInside : ℕ → ℕ → ℕ → ℕ → ℕ → ℕ → Type 0
SliceRowInside k r height pitch width size = RowInside (k * height + r) pitch width size

-- Every row lies within the allocation on the device and within the slice of the host, and the rows are the
-- whole slice.
abbrev pub RowsInside :
    (host_height host_pitch device_height device_pitch : ℕ) → Memcpy3d → Volume → Slice → Type 0
RowsInside host_height host_pitch device_height device_pitch desc v x =
    ((k r : ℕ)
      → k < desc.depth
      → r < desc.height
      → SliceRowInside k r device_height device_pitch desc.width_bytes
          (v.depth * v.height * v.pitch)
        × SliceRowInside k r host_height host_pitch desc.width_bytes (x.len * elem_size v.elem))
    × (desc.depth * desc.height * desc.width_bytes ≡ x.len * elem_size v.elem)

-- A copy of a slice into a volume, and of a volume into a slice.
abbrev pub CopiesIn : Memcpy3d → Volume → Slice → Type 0
CopiesIn desc v x =
    (desc.src_type ≡ host)
    × (desc.src ≡ x.addr)
    × (desc.dst_type ≡ device)
    × (desc.dst ≡ v.ptr)
    × RowsInside desc.src_height desc.src_pitch desc.dst_height desc.dst_pitch desc v x

abbrev pub CopiesOut : Memcpy3d → Volume → Slice → Type 0
CopiesOut desc v x =
    (desc.src_type ≡ device)
    × (desc.src ≡ v.ptr)
    × (desc.dst_type ≡ host)
    × (desc.dst ≡ x.addr)
    × RowsInside desc.dst_height desc.dst_pitch desc.src_height desc.src_pitch desc v x

-- The outcomes of a copy of a slice.
abbrev pub Outcomes : Volume → Slice → (Err → Type 0) → Type 0 → Type 0
Outcomes v x Refused Runs =
    ((max_int < elements v) × Refused (sentinel invalid_length))
    ⊎ ((elements v ≤ max_int) × (x.len ≢ elements v) × Refused (sentinel length_mismatch))
    ⊎ ((elements v ≤ max_int) × (x.len ≡ elements v) × Runs)

row_number : (k r h d : ℕ) → k < d → r < h → k * h + r < d * h
row_number k r h d a b = let e : suc k * h ≤ d * h = mul-le-mul_right h a in omega (arith, e, b)

row_bytes_lem : (v : Volume) → Valid v → row_bytes v ≡ v.width * elem_size v.elem
row_bytes_lem v x = let p = x.room in let q = x.fits in ground arith

packed_size : (w h d t : ℕ) → w * h * d * t ≡ d * h * (w * t)
packed_size w h d t =
    rw
      (
        mul_comm w h,
        mul_comm (h * w) d,
        mul_assoc d (h * w) t,
        mul_assoc h w t,
        mul_assoc d h (w * t),
      )
      refl

-- The test of `elements` is a test of the whole product.
pub too_many_lem :
    (w h d : ℕ)
    → 0 < h
    → 0 < d
    → ((too_many w h d ≡ true) × (max_int < w * h * d))
      ⊎ ((too_many w h d ≡ false) × (w * h * d ≤ max_int))
too_many_lem w h d a b =
    let (p, q) = le-div_iff_mul-le {k = h} {x = w} {y = max_int} a in
    let (p2, q2) = le-div_iff_mul-le {k = d} {x = w * h} {y = max_int} b in
    let m : w * h * 1 ≤ w * h * d = mul-le-mul_left (w * h) b in ground arith

rows_inside :
    (v : Volume) (x : Slice) (desc : Memcpy3d)
    → Valid v
    → x.len ≡ elements v
    → desc.depth ≡ v.depth
    → desc.height ≡ v.height
    → desc.width_bytes ≡ row_bytes v
    → RowsInside v.height (row_bytes v) v.height v.pitch desc v x
rows_inside v x desc a e dd dh dw =
    let w = row_bytes_lem v a in
    let k : row_bytes v ≤ v.pitch = omega (arith, w, a.room) in
    let size : x.len * elem_size v.elem ≡ v.depth * v.height * row_bytes v =
      rw (e, w) (packed_size v.width v.height v.depth (elem_size v.elem)) in
    rw (dd, dh, dw)
      (
        (λ i r l m.
            let n = row_number i r v.height v.depth l m in
            (
              row_inside (i * v.height + r) v.pitch (row_bytes v) (v.depth * v.height) n k,
              rw size (
                  row_inside (i * v.height + r) (row_bytes v) (row_bytes v) (v.depth * v.height) n
                    (omega arith)),
            )),
        sym size,
      )

module _ {W : Type 0} (d : Driver W) (g : GoContext) (v : Volume) (valid : Valid v)
    (is_open : v.closed ≡ false) where
  outcomes :
      (x : Slice) (Refused : Err → Type 0) (Runs : Type 0)
      → (has_too_many v ≡ true → Refused (sentinel invalid_length))
      → (has_too_many v ≡ false
          → (x.len == elements v) ≡ false
          → Refused (sentinel length_mismatch))
      → (has_too_many v ≡ false → (x.len == elements v) ≡ true → x.len ≡ elements v → Runs)
      → Outcomes v x Refused Runs
  outcomes x Refused Runs h k l =
      elim (too_many_lem v.width v.height v.depth valid.rows valid.slices) [
        | inl (e, m) ↦ inl (m, h e)
        | inr (e, m) ↦ elim (Bool-cases (x.len == elements v)) [
          | inr f ↦ inr (inl (m, ground arith, k e f))
          | inl f ↦ let same : x.len ≡ elements v = ground arith in inr (inr (m, same, l e f same))
        ]
      ]

  -- On an open volume that is not empty and whose pitch has room for a row, `CopyFrom` and `CopyTo` refuse a volume
  -- with more elements than an `int` counts with `ErrInvalidLength`, and a slice of another length than the
  -- volume's number of elements with `ErrLengthMismatch`, the store unchanged; any other slice is copied by
  -- one call between the slice and the volume, whose rows are all the bytes of the slice, each inside the slice
  -- and inside the allocation, and each ending before the next row begins, also from one slice of the
  -- volume to the next.
  pub volume_copies_inside :
      (x : Slice) (s : Store W)
      → Outcomes v x
          (λ e. copy_from d g (some v) x s ≡ (err e, s))
          ((desc : Memcpy3d) × CopiesIn desc v x
            × (copy_from d g (some v) x s ≡ copy_3d d v.ctx g desc s))
        × Outcomes v x
            (λ e. copy_to d g (some v) x s ≡ (err e, s))
            ((desc : Memcpy3d) × CopiesOut desc v x
              × (copy_to d g (some v) x s ≡ copy_3d d v.ctx g desc s))
  unfolding copy_from copy_to
  volume_copies_inside x s = (
    outcomes x (λ e. copy_from d g (some v) x s ≡ (err e, s))
        ((desc : Memcpy3d) × CopiesIn desc v x
          × (copy_from d g (some v) x s ≡ copy_3d d v.ctx g desc s))
        (λ e. rw (is_open, e) refl) (λ e f. rw (is_open, e, f) refl)
        (λ e f m. (
          from_host v x.addr,
          (refl, refl, refl, refl, rows_inside v x (from_host v x.addr) valid m refl refl refl),
          rw (is_open, e, f) refl,
        )),
    outcomes x (λ e. copy_to d g (some v) x s ≡ (err e, s))
        ((desc : Memcpy3d) × CopiesOut desc v x
          × (copy_to d g (some v) x s ≡ copy_3d d v.ctx g desc s))
        (λ e. rw (is_open, e) refl) (λ e f. rw (is_open, e, f) refl)
        (λ e f m. (
          to_host v x.addr,
          (refl, refl, refl, refl, rows_inside v x (to_host v x.addr) valid m refl refl refl),
          rw (is_open, e, f) refl,
        )),
  )
