-- ===== src/Argpack/Updates.antt =====
-- `Set`, `SetBytes` and `Reset`: what they change and what they leave alone.
use gocudrv.Base.{
  ap, ◌∙◌, list_ext, get_elem?, get_elem?-set_self, get_elem?-set_ne, length-set, set as list_set,
  if◌then◌else◌, ℕ, ◌<◌, ◌≡◌, ◌≢◌, refl, sym, ◌⊎◌, inl, inr, Bool, true, false, ◌||◌, not, some,
  none, [], arith, length, Bytes, ℤ, pos, negsuc, ltb, ltb_ℤ, ◌==◌, to_uint, subst, Bool-cases,
}
use gocudrv.Argpack.{
  tabulate, Builder, index_out_of_range, type_mismatch, size_mismatch, meta, value, write, set,
  set_bytes, reset, same_type,
}
use gocudrv.Argpack.Layout.{size_of}
use gocudrv.Argpack.Invariant.{Inv}
use gocudrv.Argpack.Params.{values, length-tabulate, get_elem?-tabulate}
use gocudrv.Argpack.Writes.{write-Inv, count-write, value-write_self, value-write_ne}

-- An update of argument `i` that is carried out: the invariant is kept, and of the arguments'
-- bytes those of `i`, and no other's, are replaced.
abbrev pub Updated : Builder → ℕ → Bytes → Builder → Type 0
Updated b i xs c = Inv c × (values c ≡ list_set (values b) i xs)

value-set :
    (b : Builder) (i j : ℕ) (xs : Bytes)
    → Inv b
    → i < b.count
    → j < b.count
    → length xs ≡ size_of b i
    → some (value (write b (meta b i) i xs) j) ≡ get_elem? (list_set (values b) i xs) j
value-set b i j xs v hi hj e = elim (Bool-cases (i == j)) [
  | inl same ↦
      subst (λ k. some (value (write b (meta b i) i xs) k) ≡ get_elem? (list_set (values b) i xs) k)
        (ground arith)
        (ap some (value-write_self b i xs e)
          ∙ sym (
              get_elem?-set_self (values b) i xs
                (omega (arith, length-tabulate (value b) b.count))))
  | inr other ↦
      let ne : i ≢ j = ground arith in
      ap some (value-write_ne b i j xs v hi hj ne e)
      ∙ sym (get_elem?-set_ne (values b) xs ne ∙ get_elem?-tabulate (value b) b.count j hj)
]

write-Updated :
    (b : Builder) (i : ℕ) (xs : Bytes)
    → Inv b
    → i < b.count
    → length xs ≡ size_of b i
    → Updated b i xs (write b (meta b i) i xs)
write-Updated b i xs v h e = (
  write-Inv b (meta b i) i xs v,
  ap (tabulate (value after)) (count-write b (meta b i) i xs) ∙ list_ext _ _ lengths at,
)
  where
    after : Builder
    after = write b (meta b i) i xs

    lengths : length (tabulate (value after) b.count) ≡ length (list_set (values b) i xs)
    lengths =
        length-tabulate (value after) b.count
        ∙ sym (length-set (values b) i xs ∙ length-tabulate (value b) b.count)

    at :
        (j : ℕ)
        → j < length (tabulate (value after) b.count)
        → get_elem? (tabulate (value after) b.count) j ≡ get_elem? (list_set (values b) i xs) j
    at j p =
        let q : j < b.count = omega (arith, length-tabulate (value after) b.count) in
        get_elem?-tabulate (value after) b.count j q ∙ value-set b i j xs v h q e

-- `i` is the index of an argument.
abbrev pub InRange : Builder → ℤ → Type 0
InRange b i = (n : ℕ) × (i ≡ pos n) × (n < b.count)

abbrev out_of_range : Builder → ℤ → Bool
out_of_range b i = ltb_ℤ i (pos 0) || not (ltb_ℤ i (pos b.count))

range_cases :
    (b : Builder) (i : ℤ)
    → ((out_of_range b i ≡ true) × (¬ InRange b i)) ⊎ ((out_of_range b i ≡ false) × InRange b i)
range_cases b (negsuc k) = inl (ground arith, λ r. cc (r.1))
range_cases b (pos n) = elim (Bool-cases (ltb n b.count)) [
  | inl e ↦ inr (ground arith, (n, refl, ground arith))
  | inr e ↦ inl (ground arith, λ r. ground (arith, r.1, r.2))
]

-- On a builder that satisfies the invariant `SetBytes` checks the index first and the size second,
-- and leaves the builder alone if a check fails; otherwise it updates that argument and no other.
set_bytes_lem :
    (b : Builder) (i : ℤ) (xs : Bytes)
    → Inv b
    → ((¬ InRange b i) × (set_bytes b i xs ≡ (some index_out_of_range, b)))
      ⊎ (InRange b i
          × (length xs ≢ size_of b (to_uint i))
          × (set_bytes b i xs ≡ (some size_mismatch, b)))
      ⊎ (InRange b i
          × (length xs ≡ size_of b (to_uint i))
          × ((set_bytes b i xs).0 ≡ none)
          × Updated b (to_uint i) xs (set_bytes b i xs).1)
unfolding set_bytes
set_bytes_lem b i xs v = elim (range_cases b i) [
  | inl (e, r) ↦ inl (r, rw e)
  | inr (e, r) ↦ elim (Bool-cases (length xs == size_of b (to_uint i))) [
    | inl f ↦
        let sized : length xs ≡ size_of b (to_uint i) = ground arith in
        inr (inr (r, sized, rw (e, f), rw (e, f) (updated r sized)))
    | inr f ↦ inr (inl (r, ground arith, rw (e, f)))
  ]
]
  where
    updated :
        InRange b i
        → length xs ≡ size_of b (to_uint i)
        → Updated b (to_uint i) xs (write b (meta b (to_uint i)) (to_uint i) xs)
    updated r s = write-Updated b (to_uint i) xs v (ground (arith, r.1, r.2)) s

-- On a builder that satisfies the invariant `Set` checks the index first and the type second, and
-- leaves the builder alone if a check fails; otherwise it updates that argument and no other. The value
-- has the size of the argument in the place, if that argument has its type.
set_lem :
    (b : Builder) (i : ℤ) (t : ℕ) (xs : Bytes)
    → Inv b
    → ((meta b (to_uint i)).typ ≡ some t → length xs ≡ size_of b (to_uint i))
    → ((¬ InRange b i) × (set b i t xs ≡ (some index_out_of_range, b)))
      ⊎ (InRange b i
          × ((meta b (to_uint i)).typ ≢ some t)
          × (set b i t xs ≡ (some type_mismatch, b)))
      ⊎ (InRange b i
          × ((meta b (to_uint i)).typ ≡ some t)
          × ((set b i t xs).0 ≡ none)
          × Updated b (to_uint i) xs (set b i t xs).1)
unfolding set
set_lem b i t xs v sized = elim (range_cases b i) [
  | inl (e, r) ↦ inl (r, rw e)
  | inr (e, r) ↦ elim (Bool-cases (same_type (meta b (to_uint i)).typ t)) [
    | inl f ↦
        let typed : (meta b (to_uint i)).typ ≡ some t = ground arith in
        inr (inr (r, typed, rw (e, f), rw (e, f) (updated r (sized typed))))
    | inr f ↦ inr (inl (r, ground arith, rw (e, f)))
  ]
]
  where
    updated :
        InRange b i
        → length xs ≡ size_of b (to_uint i)
        → Updated b (to_uint i) xs (write b (meta b (to_uint i)) (to_uint i) xs)
    updated r s = write-Updated b (to_uint i) xs v (ground (arith, r.1, r.2)) s

-- `Reset` gives a builder with no arguments that satisfies the invariant, and keeps the arena unless
-- its capacity is above 8192 bytes, when it drops it.
pub reset_lem :
    (b : Builder)
    → Inv (reset b)
      × (values (reset b) ≡ [])
      × ((reset b).spill_cap ≡ (if ltb 8192 b.spill_cap then 0 else b.spill_cap))
unfolding reset tabulate
reset_lem b = elim (Bool-cases (ltb 8192 b.spill_cap)) [
  | inl e ↦ rw e (empty_Inv _ refl refl refl refl, refl, refl)
  | inr e ↦ rw e (empty_Inv _ refl refl refl refl, refl, refl)
]
  where
    empty_Inv :
        (c : Builder)
        → c.count ≡ 0
        → c.overflow_meta ≡ []
        → c.spill_len ≡ 0
        → c.has_spill ≡ false
        → Inv c
    empty_Inv c e f g h = record {
      overflow = ground arith;
      within = ground arith;
      placed = λ i p. absurd (omega arith);
      apart = λ i j p q. absurd (omega arith);
      cached = λ p. cc;
    }
