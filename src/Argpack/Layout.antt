-- ===== src/Argpack/Layout.antt =====
-- Where the arguments of a builder lie, and what `add` does to the record of it.
use gocudrv.Base.{
  ℕ, ◌+◌, ◌-◌, ◌%◌, ◌≤◌, ◌<◌, ◌≡◌, ◌⊎◌, Bool, true, false, ◌&&◌, Option, arith, ltb, leb, length,
  get_or-append_left, get_or-append_end, Bytes, pos, negsuc, ltb_ℤ, to_uint,
}
use gocudrv.Argpack.{
  Builder, slot, inline_args, align_up, arena_alloc, meta, add_inline, add_spill, uint16, int32,
}

abbrev pub is_inline : Builder → ℕ → Bool
is_inline b i = ltb_ℤ (meta b i).offset (pos 0)

abbrev pub offset_of : Builder → ℕ → ℕ
offset_of b i = to_uint (meta b i).offset

abbrev pub size_of : Builder → ℕ → ℕ
size_of b i = (meta b i).size

-- An argument in its own slot, or in the arena below the used length, aligned to eight bytes.
abbrev pub Placed : Builder → ℕ → Type 0
Placed b i =
    ((is_inline b i ≡ true)
      × (i < inline_args)
      × (size_of b i ≤ 8)
      × (b.inline_pointers i ≡ slot i))
    ⊎ ((is_inline b i ≡ false)
        × (offset_of b i + size_of b i ≤ b.spill_len)
        × (offset_of b i % 8 ≡ 0)
        × (b.has_spill ≡ true))

pub align_up_bounds : (n : ℕ) → (n ≤ align_up n) × (align_up n ≤ n + 7) × (align_up n % 8 ≡ 0)
unfolding align_up
align_up_bounds n = (omega arith, omega arith, omega arith)

module _ (b : Builder) (xs : Bytes) (t : Option ℕ) where
  pub meta-add_inline_old :
      (i : ℕ) → i < b.count → b.count < 16 → meta (add_inline b xs t) i ≡ meta b i
  unfolding meta add_inline
  meta-add_inline_old i h k = ground arith

  pub meta-add_inline_new :
      b.count < 16
      → meta (add_inline b xs t) b.count
        ≡ record { offset = negsuc 0; size = uint16 (length xs); typ = t }
  unfolding meta add_inline
  meta-add_inline_new k = ground arith

  pub meta-add_spill_old :
      (i : ℕ)
      → length b.overflow_meta ≡ b.count - inline_args
      → i < b.count
      → meta (add_spill b xs t) i ≡ meta b i
  unfolding meta add_spill arena_alloc
  meta-add_spill_old i l h = grind (arith, get_or-append_left)

  pub meta-add_spill_new :
      length b.overflow_meta ≡ b.count - inline_args
      → meta (add_spill b xs t) b.count
        ≡ record { offset = int32 (align_up b.spill_len); size = uint16 (length xs); typ = t }
  unfolding meta add_spill arena_alloc
  meta-add_spill_new l = grind (arith, get_or-append_end)

-- The test of `add`.
abbrev pub goes_inline : Builder → Bytes → Bool
goes_inline b xs = ltb b.count inline_args && leb (length xs) 8
