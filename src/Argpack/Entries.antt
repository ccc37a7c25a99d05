-- ===== src/Argpack/Entries.antt =====
-- The arguments of a builder with their types, and what each operation does to them.
use gocudrv.Base.{
  ℕ, suc, ◌<◌, ◌≡◌, ◌≢◌, ◌∙◌, refl, sym, ap, subst, inl, inr, Bool-cases, Option, some, List, [],
  ◌∷◌, ◌++◌, length, get_elem?, set as list_set, get_elem?-set_self, get_elem?-set_ne, length-set,
  list_ext, arith, Bytes, ◌==◌,
}
use gocudrv.Argpack.{ArgMeta, Builder, add, reset, params, meta, value, write, tabulate}
use gocudrv.Argpack.Layout.{
  size_of, meta-add_inline_old, meta-add_inline_new, meta-add_spill_old, meta-add_spill_new,
}
use gocudrv.Argpack.Invariant.{Inv, Fits, add_cases}
use gocudrv.Argpack.Values.{value-add_old, value-add_new}
use gocudrv.Argpack.Params.{
  tabulate_cong, length-tabulate, get_elem?-tabulate, count-add, params_shape,
}
use gocudrv.Argpack.Writes.{write_eq, count-write, value-write_self, value-write_ne}

-- An argument: its bytes and its type, if it has one.
abbrev pub Arg : Type 0
Arg = Bytes × Option ℕ

abbrev pub typ_of : Builder → ℕ → Option ℕ
typ_of b i = (meta b i).typ

abbrev pub entry : Builder → ℕ → Arg
entry b i = (value b i, typ_of b i)

-- The arguments of a builder.
abbrev pub entries : Builder → List Arg
entries b = tabulate (entry b) b.count

typ-add_old :
    (b : Builder) (xs : Bytes) (t : Option ℕ) (i : ℕ)
    → i < b.count
    → Inv b
    → typ_of (add b xs t) i ≡ typ_of b i
typ-add_old b xs t i h v =
    add_cases (λ c. typ_of c i ≡ typ_of b i) b xs t
      (λ k _. ap (λ m. m.typ) (meta-add_inline_old b xs t i h k))
      (λ _. ap (λ m. m.typ) (meta-add_spill_old b xs t i v.overflow h))

typ-add_new : (b : Builder) (xs : Bytes) (t : Option ℕ) → Inv b → typ_of (add b xs t) b.count ≡ t
typ-add_new b xs t v =
    add_cases (λ c. typ_of c b.count ≡ t) b xs t
      (λ k _. ap (λ m. m.typ) (meta-add_inline_new b xs t k))
      (λ _. ap (λ m. m.typ) (meta-add_spill_new b xs t v.overflow))

pub entries-add :
    (b : Builder) (xs : Bytes) (t : Option ℕ)
    → Inv b
    → Fits b xs
    → entries (add b xs t) ≡ entries b ++ (xs, t) ∷ []
entries-add b xs t v f = ap (tabulate (entry (add b xs t))) (count-add b xs t) ∙ appended
  where
    appended : tabulate (entry (add b xs t)) (suc b.count) ≡ entries b ++ (xs, t) ∷ []
    appended =
        unfold tabulate in
        cc (
          tabulate_cong (entry (add b xs t)) (entry b) b.count
              (λ i h. cc (value-add_old b xs t i h v, typ-add_old b xs t i h v)),
          value-add_new b xs t f v,
          typ-add_new b xs t v,
        )

meta-write :
    (b : Builder) (m : ArgMeta) (i : ℕ) (xs : Bytes) (j : ℕ) → meta (write b m i xs) j ≡ meta b j
unfolding meta
meta-write b m i xs j = let (slots, ar, e) = write_eq b m i xs in rw e refl

entry-set :
    (b : Builder) (i j : ℕ) (xs : Bytes)
    → Inv b
    → i < b.count
    → j < b.count
    → length xs ≡ size_of b i
    → some (entry (write b (meta b i) i xs) j)
      ≡ get_elem? (list_set (entries b) i (xs, typ_of b i)) j
entry-set b i j xs v hi hj e = elim (Bool-cases (i == j)) [
  | inl same ↦
      subst
        (λ k.
          some (entry (write b (meta b i) i xs) k)
          ≡ get_elem? (list_set (entries b) i (xs, typ_of b i)) k)
        (ground arith)
        (cc (value-write_self b i xs e, meta-write b (meta b i) i xs i)
          ∙ sym (
              get_elem?-set_self (entries b) i (xs, typ_of b i)
                (omega (arith, length-tabulate (entry b) b.count))))
  | inr other ↦
      let ne : i ≢ j = ground arith in
      cc (value-write_ne b i j xs v hi hj ne e, meta-write b (meta b i) i xs j)
      ∙ sym (
          get_elem?-set_ne (entries b) (xs, typ_of b i) ne
          ∙ get_elem?-tabulate (entry b) b.count j hj)
]

pub entries-write :
    (b : Builder) (i : ℕ) (xs : Bytes)
    → Inv b
    → i < b.count
    → length xs ≡ size_of b i
    → entries (write b (meta b i) i xs) ≡ list_set (entries b) i (xs, typ_of b i)
entries-write b i xs v h e =
    ap (tabulate (entry after)) (count-write b (meta b i) i xs) ∙ list_ext _ _ lengths at
  where
    after : Builder
    after = write b (meta b i) i xs

    lengths :
        length (tabulate (entry after) b.count) ≡ length (list_set (entries b) i (xs, typ_of b i))
    lengths =
        length-tabulate (entry after) b.count
        ∙ sym (length-set (entries b) i (xs, typ_of b i) ∙ length-tabulate (entry b) b.count)

    at :
        (j : ℕ)
        → j < length (tabulate (entry after) b.count)
        → get_elem? (tabulate (entry after) b.count) j
          ≡ get_elem? (list_set (entries b) i (xs, typ_of b i)) j
    at j p =
        let q : j < b.count = omega (arith, length-tabulate (entry after) b.count) in
        get_elem?-tabulate (entry after) b.count j q ∙ entry-set b i j xs v h q e

pub entries-reset : (b : Builder) → entries (reset b) ≡ []
unfolding reset tabulate
entries-reset b = ground arith

entry-params : (b : Builder) (i : ℕ) → entry (params b).1 i ≡ entry b i
unfolding value meta
entry-params b i = let (ps, q, e) = params_shape b in ap (λ c. entry c i) e

count-params : (b : Builder) → (params b).1.count ≡ b.count
count-params b = let (ps, q, e) = params_shape b in ap (λ c. c.count) e

pub entries-params : (b : Builder) → entries (params b).1 ≡ entries b
entries-params b =
    ap (tabulate (entry (params b).1)) (count-params b)
    ∙ tabulate_cong (entry (params b).1) (entry b) b.count (λ i _. entry-params b i)
