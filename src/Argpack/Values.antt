-- ===== src/Argpack/Values.antt =====
-- The bytes of the arguments: what `add`, `Set`, `SetBytes` and `Params` do to them.
use gocudrv.Base.{
  ℕ, ◌+◌, ◌≤◌, ◌<◌, ◌≡◌, refl, ◌∙◌, inl, inr, Option, arith, Bool-cases, length, Bytes, load, store,
  load_cong, load-store_self, store_out, ltb,
}
use gocudrv.Argpack.{Builder, align_up, arena_alloc, add_inline, add_spill, add, value, zero_memory}
use gocudrv.Argpack.Layout.{
  offset_of, size_of, align_up_bounds, meta-add_inline_old, meta-add_inline_new, meta-add_spill_old,
  meta-add_spill_new,
}
use gocudrv.Argpack.Invariant.{Inv, Fits, add_cases}

value-add_inline_old :
    (b : Builder) (xs : Bytes) (t : Option ℕ) (i : ℕ)
    → i < b.count
    → b.count < 16
    → value (add_inline b xs t) i ≡ value b i
unfolding value add_inline
value-add_inline_old b xs t i h k = ground (arith, meta-add_inline_old b xs t i h k)

value-add_inline_new :
    (b : Builder) (xs : Bytes) (t : Option ℕ)
    → b.count < 16
    → length xs ≤ 8
    → value (add_inline b xs t) b.count ≡ xs
unfolding value add_inline
value-add_inline_new b xs t k l =
    ground (arith, meta-add_inline_new b xs t k, load-store_self zero_memory 0 xs)

-- `arenaAlloc` keeps the bytes below the old length.
arena-arena_alloc :
    (b : Builder) (n p : ℕ) → p < b.spill_len → (arena_alloc b n).1.arena p ≡ b.arena p
unfolding arena_alloc
arena-arena_alloc b n p h = elim (Bool-cases (ltb b.spill_cap (align_up b.spill_len + n))) [
  | inl e ↦ rw e (ground arith)
  | inr e ↦ rw e
]

-- The arena after `add` is the one that `arenaAlloc` returns, with the argument copied in.
arena-add_spill_eq :
    (b : Builder) (xs : Bytes) (t : Option ℕ)
    → (add_spill b xs t).arena
      ≡ store (arena_alloc b (length xs)).1.arena (arena_alloc b (length xs)).0 xs
unfolding add_spill
arena-add_spill_eq b xs t = ground arith

offset-arena_alloc : (b : Builder) (n : ℕ) → (arena_alloc b n).0 ≡ align_up b.spill_len
unfolding arena_alloc
offset-arena_alloc b n = refl

arena-add_spill :
    (b : Builder) (xs : Bytes) (t : Option ℕ) (p : ℕ)
    → p < b.spill_len
    → (add_spill b xs t).arena p ≡ b.arena p
arena-add_spill b xs t p h =
    rw (arena-add_spill_eq b xs t, offset-arena_alloc b (length xs))
      (store_out (arena_alloc b (length xs)).1.arena (align_up b.spill_len) xs p
          (inl (omega (arith, align_up_bounds b.spill_len)))
        ∙ arena-arena_alloc b (length xs) p h)

value-add_spill_old :
    (b : Builder) (xs : Bytes) (t : Option ℕ) (i : ℕ)
    → Inv b
    → i < b.count
    → value (add_spill b xs t) i ≡ value b i
value-add_spill_old b xs t i v h =
    unfold value in
    ground (arith, meta-add_spill_old b xs t i v.overflow h, v.placed i h, kept, slots)
  where
    slots : (add_spill b xs t).inline_values ≡ b.inline_values
    slots = unfold add_spill arena_alloc in ground arith

    kept :
        offset_of b i + size_of b i ≤ b.spill_len
        → load (add_spill b xs t).arena (offset_of b i) (size_of b i)
          ≡ load b.arena (offset_of b i) (size_of b i)
    kept w = load_cong _ _ _ _ λ p l u. arena-add_spill b xs t p (omega arith)

value-add_spill_new :
    (b : Builder) (xs : Bytes) (t : Option ℕ)
    → Inv b
    → Fits b xs
    → value (add_spill b xs t) b.count ≡ xs
value-add_spill_new b xs t v f = ground (arith, found, copied)
  where
    copied : load (add_spill b xs t).arena (align_up b.spill_len) (length xs) ≡ xs
    copied =
        rw (arena-add_spill_eq b xs t, offset-arena_alloc b (length xs))
          (load-store_self (arena_alloc b (length xs)).1.arena (align_up b.spill_len) xs)

    found :
        value (add_spill b xs t) b.count
        ≡ load (add_spill b xs t).arena (align_up b.spill_len) (length xs)
    found =
        unfold value in
        ground (arith, meta-add_spill_new b xs t v.overflow, align_up_bounds b.spill_len)

-- A new argument is stored as given.
pub value-add_new :
    (b : Builder) (xs : Bytes) (t : Option ℕ) → Fits b xs → Inv b → value (add b xs t) b.count ≡ xs
value-add_new b xs t f v =
    add_cases (λ c. value c b.count ≡ xs) b xs t (λ k l. value-add_inline_new b xs t k l)
      (λ _. value-add_spill_new b xs t v f)

-- The arguments before it keep their bytes, also when the arena is replaced.
pub value-add_old :
    (b : Builder) (xs : Bytes) (t : Option ℕ) (i : ℕ)
    → i < b.count
    → Inv b
    → value (add b xs t) i ≡ value b i
value-add_old b xs t i h v =
    add_cases (λ c. value c i ≡ value b i) b xs t (λ k _. value-add_inline_old b xs t i h k)
      (λ _. value-add_spill_old b xs t i v h)
