-- ===== src/Argpack/Invariant.antt =====
-- The invariant of a builder, and that every operation of the package keeps it.
use gocudrv.Base.{
  ℕ, suc, ◌+◌, ◌-◌, ◌≤◌, ◌<◌, ◌≡◌, refl, ◌⊎◌, inl, inr, true, false, Option, arith, Bool-cases,
  length, length-append, Bytes,
}
use gocudrv.Argpack.{
  empty, Builder, inline_args, arena_alloc, add_inline, add_spill, add, arg_pointer, tabulate,
}
use gocudrv.Argpack.Layout.{
  goes_inline, is_inline, offset_of, size_of, Placed, align_up_bounds, meta-add_inline_old,
  meta-add_inline_new, meta-add_spill_old, meta-add_spill_new,
}

pub record Inv (b : Builder) : Type 0 where
  pub overflow : length b.overflow_meta ≡ b.count - inline_args
  pub within : b.spill_len ≤ b.spill_cap
  pub placed : (i : ℕ) → i < b.count → Placed b i
  pub apart :
      (i j : ℕ)
      → i < j
      → j < b.count
      → is_inline b i ≡ false
      → is_inline b j ≡ false
      → offset_of b i + size_of b i ≤ offset_of b j
  pub cached :
      b.has_spill ≡ true → b.dirty ≡ false → b.spill_pointers ≡ tabulate (arg_pointer b) b.count

-- Room for an argument: its size is a `uint16`, and the arena stays below 2^31, an `int32`.
abbrev pub Fits : Builder → Bytes → Type 0
Fits b xs = (length xs < 65536) × (b.spill_len + 7 + length xs < 2147483648)

pub Placed-add_inline_old :
    (b : Builder) (xs : Bytes) (t : Option ℕ) (i : ℕ)
    → i < b.count
    → b.count < 16
    → Placed b i
    → Placed (add_inline b xs t) i
unfolding add_inline
Placed-add_inline_old b xs t i h k p = ground (arith, meta-add_inline_old b xs t i h k)

Placed-add_inline_new :
    (b : Builder) (xs : Bytes) (t : Option ℕ)
    → b.count < 16
    → length xs ≤ 8
    → Placed (add_inline b xs t) b.count
unfolding add_inline
Placed-add_inline_new b xs t k l = ground (arith, meta-add_inline_new b xs t k)

Placed-add_spill_old :
    (b : Builder) (xs : Bytes) (t : Option ℕ) (i : ℕ)
    → length b.overflow_meta ≡ b.count - inline_args
    → i < b.count
    → Placed b i
    → Placed (add_spill b xs t) i
unfolding add_spill arena_alloc
Placed-add_spill_old b xs t i l h p =
    ground (arith, meta-add_spill_old b xs t i l h, align_up_bounds b.spill_len)

Placed-add_spill_new :
    (b : Builder) (xs : Bytes) (t : Option ℕ)
    → length b.overflow_meta ≡ b.count - inline_args
    → Fits b xs
    → Placed (add_spill b xs t) b.count
unfolding add_spill arena_alloc
Placed-add_spill_new b xs t l f =
    ground (arith, meta-add_spill_new b xs t l, align_up_bounds b.spill_len)

-- An index below `suc n` is below `n` or is `n`.
below_suc : (i n : ℕ) → i < suc n → (i < n) ⊎ (i ≡ n)
below_suc i n h = ground arith

add_inline-Inv :
    (b : Builder) (xs : Bytes) (t : Option ℕ)
    → b.count < 16
    → length xs ≤ 8
    → Inv b
    → Inv (add_inline b xs t)
add_inline-Inv b xs t k l v = record {
  overflow = unfold add_inline in ground (arith, v.overflow);
  within = unfold add_inline in ground (arith, v.within);
  placed = λ i h. elim (below_suc i b.count (unfold add_inline in ground arith)) [
    | inl p ↦ Placed-add_inline_old b xs t i p k (v.placed i p)
    | inr e ↦ rw e (Placed-add_inline_new b xs t k l)
  ];
  apart = λ i j h hj p q.
      apart_inline i j h p q (below_suc j b.count (unfold add_inline in ground arith));
  cached = λ p q. unfold add_inline in ground arith;
}
  where
    apart_inline :
        (i j : ℕ)
        → i < j
        → is_inline (add_inline b xs t) i ≡ false
        → is_inline (add_inline b xs t) j ≡ false
        → (j < b.count) ⊎ (j ≡ b.count)
        → offset_of (add_inline b xs t) i + size_of (add_inline b xs t) i
          ≤ offset_of (add_inline b xs t) j
    apart_inline i j h p q (inl hj) = ground (
      arith,
      meta-add_inline_old b xs t i (omega arith) k,
      meta-add_inline_old b xs t j hj k,
      v.apart i j h hj,
    )
    apart_inline i j h p q (inr e) = ground (arith, meta-add_inline_new b xs t k)

overflow-add_spill :
    (b : Builder) (xs : Bytes) (t : Option ℕ)
    → length b.overflow_meta ≡ b.count - inline_args
    → length (add_spill b xs t).overflow_meta ≡ (add_spill b xs t).count - inline_args
unfolding add_spill arena_alloc
overflow-add_spill b xs t l = grind (arith, length-append)

add_spill-Inv :
    (b : Builder) (xs : Bytes) (t : Option ℕ)
    → (16 ≤ b.count) ⊎ (8 < length xs)
    → Fits b xs
    → Inv b
    → Inv (add_spill b xs t)
add_spill-Inv b xs t k f v = record {
  overflow = overflow-add_spill b xs t v.overflow;
  within = unfold add_spill arena_alloc in ground (arith, v.within);
  placed = λ i h. elim (below_suc i b.count (unfold add_spill in ground arith)) [
    | inl p ↦ Placed-add_spill_old b xs t i v.overflow p (v.placed i p)
    | inr e ↦ rw e (Placed-add_spill_new b xs t v.overflow f)
  ];
  apart = λ i j h hj p q.
      apart_spill i j h p q (below_suc j b.count (unfold add_spill in ground arith));
  cached = λ p q. unfold add_spill in ground arith;
}
  where
    apart_spill :
        (i j : ℕ)
        → i < j
        → is_inline (add_spill b xs t) i ≡ false
        → is_inline (add_spill b xs t) j ≡ false
        → (j < b.count) ⊎ (j ≡ b.count)
        → offset_of (add_spill b xs t) i + size_of (add_spill b xs t) i
          ≤ offset_of (add_spill b xs t) j
    apart_spill i j h p q (inl hj) = ground (
      arith,
      meta-add_spill_old b xs t i v.overflow (omega arith),
      meta-add_spill_old b xs t j v.overflow hj,
      v.apart i j h hj,
    )
    apart_spill i j h p q (inr e) = ground (
      arith,
      meta-add_spill_old b xs t i v.overflow (omega arith),
      meta-add_spill_new b xs t v.overflow,
      v.placed i (omega arith),
      align_up_bounds b.spill_len,
    )

-- `add` is one of its two branches.
pub add_cases {ℓ} :
    (P : Builder → Type ℓ) (b : Builder) (xs : Bytes) (t : Option ℕ)
    → (b.count < 16 → length xs ≤ 8 → P (add_inline b xs t))
    → ((16 ≤ b.count) ⊎ (8 < length xs) → P (add_spill b xs t))
    → P (add b xs t)
unfolding add
add_cases P b xs t small large = elim (Bool-cases (goes_inline b xs)) [
  | inl e ↦ rw e (small (ground arith) (ground arith))
  | inr e ↦ rw e (large (ground arith))
]

-- Adding an argument that fits keeps the invariant.
pub add-Inv : (b : Builder) (xs : Bytes) (t : Option ℕ) → Fits b xs → Inv b → Inv (add b xs t)
add-Inv b xs t f v =
    add_cases Inv b xs t (λ k l. add_inline-Inv b xs t k l v) (λ k. add_spill-Inv b xs t k f v)

-- A new builder.
pub empty-Inv : Inv empty
empty-Inv = record {
  overflow = refl;
  within = omega arith;
  placed = λ i h. elim h [ ];
  apart = λ i j h k. elim k [ ];
  cached = λ h. cc;
}
