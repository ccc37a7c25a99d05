-- ===== src/Argpack/Writes.antt =====
-- `write` of internal/argpack/argpack.go: what it changes and what it leaves alone.
use gocudrv.Base.{
  ℕ, ◌<◌, ◌≡◌, ◌≢◌, sym, inl, inr, arith, length, Bytes, store, load-store_ne, load-store_self, pos,
  ltb_ℤ, to_uint, subst, update, Mem, Bool-cases,
}
use gocudrv.Argpack.{ArgMeta, Builder, meta, value, write}
use gocudrv.Argpack.Layout.{offset_of, size_of}
use gocudrv.Argpack.Invariant.{Inv}

-- The layout does not depend on the bytes stored.
relayout-Inv :
    (b : Builder) (slots : ℕ → Mem) (m : Mem)
    → Inv b
    → Inv (record b { inline_values = slots; arena = m })
unfolding meta
relayout-Inv b slots m v = record {
  overflow = v.overflow;
  within = v.within;
  placed = v.placed;
  apart = v.apart;
  cached = v.cached;
}

pub write_eq :
    (b : Builder) (m : ArgMeta) (i : ℕ) (xs : Bytes)
    → (slots : ℕ → Mem) × (ar : Mem) × (write b m i xs
        ≡ record b { inline_values = slots; arena = ar })
unfolding write
write_eq b m i xs = elim (Bool-cases (ltb_ℤ m.offset (pos 0))) [
  | inl e ↦ (update b.inline_values i (store (b.inline_values i) 0 xs), b.arena, rw e)
  | inr e ↦ (b.inline_values, store b.arena (to_uint m.offset) xs, rw e)
]

pub write-Inv : (b : Builder) (m : ArgMeta) (i : ℕ) (xs : Bytes) → Inv b → Inv (write b m i xs)
write-Inv b m i xs v =
    let (slots, ar, e) = write_eq b m i xs in subst Inv (sym e) (relayout-Inv b slots ar v)

pub count-write :
    (b : Builder) (m : ArgMeta) (i : ℕ) (xs : Bytes) → (write b m i xs).count ≡ b.count
unfolding write
count-write b m i xs = ground arith

pub value-write_self :
    (b : Builder) (i : ℕ) (xs : Bytes)
    → length xs ≡ size_of b i
    → value (write b (meta b i) i xs) i ≡ xs
unfolding write value meta
value-write_self b i xs e =
    ground
      (arith, load-store_self (b.inline_values i) 0 xs, load-store_self b.arena (offset_of b i) xs)

pub value-write_ne :
    (b : Builder) (i j : ℕ) (xs : Bytes)
    → Inv b
    → i < b.count
    → j < b.count
    → i ≢ j
    → length xs ≡ size_of b i
    → value (write b (meta b i) i xs) j ≡ value b j
unfolding write value meta
value-write_ne b i j xs v hi hj ne e = ground (
  arith,
  load-store_ne b.arena (offset_of b i) xs (offset_of b j) (size_of b j),
  v.apart i j,
  v.apart j i,
)
