-- ===== src/Buffer/Bounds.antt =====
-- Which device addresses the partial copies and the views reach.
use gocudrv.Base.{
  ℕ, ◌*◌, ◌+◌, ◌≤◌, ◌<◌, ◌≡◌, ◌⊎◌, inl, inr, refl, true, false, some, arith, ℤ, pos, negsuc, ltb_ℤ,
  to_uint,
}
use gocudrv.Driver.Errors.{Err, err, sentinel, invalid_length, out_of_range}
use gocudrv.Driver.{Driver, Call}
use gocudrv.Context.Exec.{GoContext}
use gocudrv.Context.State.{Store}
use gocudrv.Dispatch.{run}
use gocudrv.Buffer.{elem_size, Buffer, Slice, u64}
use gocudrv.Buffer.Offset.{offset_ptr, copy_from_at, copy_to_at}
use native.Mathlib.Nat.{mul-le-mul_right, add-mul}

-- A live allocation: its size is that of its elements, and it lies inside the address space.
pub record Valid (b : Buffer) : Type 0 where
  pub size : b.bytes ≡ b.length * elem_size b.elem
  pub fits : b.ptr + b.bytes < 18446744073709551616

-- A copy of `n` elements from the element `o` on stays inside the allocation, and neither the address
-- nor the size wraps.
abbrev pub Inside : Buffer → ℕ → ℕ → Type 0
Inside b o n =
    (offset_ptr b o ≡ b.ptr + o * elem_size b.elem)
    × (u64 (n * elem_size b.elem) ≡ n * elem_size b.elem)
    × (offset_ptr b o + n * elem_size b.elem ≤ b.ptr + b.bytes)

inside : (b : Buffer) (o n : ℕ) → Valid b → o + n ≤ b.length → Inside b o n
inside b o n v l =
    let e : (o + n) * elem_size b.elem ≤ b.length * elem_size b.elem =
      mul-le-mul_right (elem_size b.elem) l in
    let f : (o + n) * elem_size b.elem ≡ o * elem_size b.elem + n * elem_size b.elem =
      add-mul o n (elem_size b.elem) in
    let p = v.size in let q = v.fits in ground arith

-- The range of `n` elements from `off` on lies in the buffer.
abbrev pub InRange : Buffer → ℤ → ℕ → Type 0
InRange b off n = (off ≡ pos (to_uint off)) × (to_uint off + n ≤ b.length)

range_cases : (o n len : ℕ) → (n ≡ 0) ⊎ (((len < o + n) × (0 < n)) ⊎ ((o + n ≤ len) × (0 < n)))
range_cases o n len = ground arith

-- What the tests of the partial copies leave: a refusal with an error, or a range in the buffer.
abbrev pub Checked : Buffer → ℤ → ℕ → (Err → Type 0) → Type 0 → Type 0
Checked b off n Refused Runs =
    (((ltb_ℤ off (pos 0) ≡ true) ⊎ (n ≡ 0)) × Refused (sentinel invalid_length))
    ⊎ (((off ≡ pos (to_uint off))
          × (0 < n)
          × (b.length < to_uint off + n)
          × Refused (sentinel out_of_range))
        ⊎ (InRange b off n × (0 < n) × Inside b (to_uint off) n × Runs))

module _ {W : Type 0} (d : Driver W) (g : GoContext) (b : Buffer) (v : Valid b)
    (is_open : b.closed ≡ false) where
  -- On an open buffer, `CopyFromAt` of a slice at an offset refuses a negative offset or an empty slice
  -- with `ErrInvalidLength` and a range past the end with `ErrOutOfRange`, the store unchanged; any other
  -- range lies in the buffer, and the copy asks the driver for exactly the bytes of that range, inside
  -- the allocation.
  pub copy_from_at_inside :
      (off : ℤ) (src : Slice) (s : Store W)
      → Checked b off src.len
          (λ e. copy_from_at d g (some b) off src s ≡ (err e, s))
          (copy_from_at d g (some b) off src s
            ≡ run d b.ctx g
                (Call.memcpy_htod
                  (b.ptr + to_uint off * elem_size b.elem)
                  src.addr
                  (src.len * elem_size b.elem))
                s)
  unfolding copy_from_at
  copy_from_at_inside (negsuc o) src s = inl (inl (ground arith), ground arith)
  copy_from_at_inside (pos o) src s = elim (range_cases o src.len b.length) [
    | inl e ↦ inl (inr e, ground arith)
    | inr (inl (l, p)) ↦ inr (inl (refl, p, l, ground arith))
    | inr (inr (l, p)) ↦
        (let (e, f, k) = inside b o src.len v l in
          inr (inr ((refl, l), p, (e, f, k), ground arith)))
  ]

  -- On an open buffer, `CopyToAt` into a slice from an offset refuses a negative offset or an empty slice
  -- with `ErrInvalidLength` and a range past the end with `ErrOutOfRange`, the store unchanged; any other
  -- range lies in the buffer, and the copy asks the driver for exactly the bytes of that range, inside
  -- the allocation.
  copy_to_at_inside :
      (off : ℤ) (dst : Slice) (s : Store W)
      → Checked b off dst.len
          (λ e. copy_to_at d g (some b) dst off s ≡ (err e, s))
          (copy_to_at d g (some b) dst off s
            ≡ run d b.ctx g
                (Call.memcpy_dtoh dst.addr
                  (b.ptr + to_uint off * elem_size b.elem)
                  (dst.len * elem_size b.elem))
                s)
  unfolding copy_to_at
  copy_to_at_inside (negsuc o) dst s = inl (inl (ground arith), ground arith)
  copy_to_at_inside (pos o) dst s = elim (range_cases o dst.len b.length) [
    | inl e ↦ inl (inr e, ground arith)
    | inr (inl (l, p)) ↦ inr (inl (refl, p, l, ground arith))
    | inr (inr (l, p)) ↦
        (let (e, f, k) = inside b o dst.len v l in
          inr (inr ((refl, l), p, (e, f, k), ground arith)))
  ]
