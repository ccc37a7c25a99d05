-- ===== src/Argpack/Refinement/Steps.antt =====
-- Each operation of the builder against the list that it stands for.
use gocudrv.Base.{
  ℕ, ◌+◌, ◌<◌, ◌≤◌, ◌≡◌, ◌∙◌, refl, sym, ap, subst, inl, inr, Bool, true, false, Bool-cases, Option,
  none, some, [], ◌∷◌, ◌++◌, map, length, get_elem?, set as list_set, arith, Bytes, ℤ, pos, negsuc,
  to_uint, ltb, ◌==◌, if◌then◌else◌,
}
use gocudrv.Argpack.{
  Builder, PackError, index_out_of_range, type_mismatch, size_mismatch, set, set_bytes, params,
  returned, meta, value, write, same_type,
}
use gocudrv.Argpack.Layout.{size_of}
use gocudrv.Argpack.Invariant.{Inv, Fits, add-Inv}
use gocudrv.Argpack.Params.{
  sizes, Filled, params_read, params-Inv, values, length-tabulate, get_elem?-tabulate,
}
use gocudrv.Argpack.Writes.{write-Inv}
use gocudrv.Argpack.Updates.{reset_lem}
use gocudrv.Argpack.Packing.{length-value, map-tabulate}
use gocudrv.Argpack.Entries.{
  Arg, typ_of, entry, entries, entries-add, entries-write, entries-reset, entries-params,
}
use gocudrv.Argpack.Model.{
  Op, add_op, set_op, set_bytes_op, params_op, reset_op, Answer, result, reads, Spec, spec_at,
  replace, read_spec, spec_step, found, op_step, Sized, Proper, room,
}
use gocudrv.Argpack.Refinement.Each.{
  Each, Sized-pos, Each-append, Each-set, Each-at, get_elem?_beyond, Sized-length, typed,
}

-- The arguments of a builder are those of the specification.
pub record View (width : ℕ → ℕ) (b : Builder) (m : Spec) : Type 0 where
  pub inv : Inv b
  pub same : entries b ≡ m
  pub each : Each width m

module _ (i : ℤ) (xs : Bytes) (e : PackError) (test : Arg → Bool) (m : Spec) where
  replace-none : spec_at i m ≡ none → replace i xs e test m ≡ (result (some index_out_of_range), m)
  replace-none h = rw (h, replace) refl

  replace_miss :
      (a : Arg)
      → spec_at i m ≡ some a
      → test a ≡ false
      → replace i xs e test m ≡ (result (some e), m)
  replace_miss a h q = rw (h, q, replace) refl

  replace_hit :
      (a : Arg)
      → spec_at i m ≡ some a
      → test a ≡ true
      → replace i xs e test m ≡ (result none, list_set m (to_uint i) (xs, a.1))
  replace_hit a h q = rw (h, q, replace) refl

-- One operation on both.
abbrev pub Matches : (ℕ → ℕ) → Answer × Builder → Answer × Spec → Type 0
Matches width x y = (x.0 ≡ y.0) × View width x.1 y.1

module _ (width : ℕ → ℕ) (b : Builder) (m : Spec) (v : View width b m) where
  spec_in : (n : ℕ) → n < b.count → get_elem? m n ≡ some (entry b n)
  spec_in n h = ap (λ l. get_elem? l n) (sym v.same) ∙ get_elem?-tabulate (entry b) b.count n h

  spec_out : (n : ℕ) → b.count ≤ n → get_elem? m n ≡ none
  spec_out n h =
      get_elem?_beyond m n (omega (arith, h, ap length v.same, length-tabulate (entry b) b.count))

  add-Matches :
      (xs : Bytes) (t : Option ℕ)
      → Fits b xs
      → Sized width xs t
      → Matches width (op_step (add_op xs t) b) (spec_step (add_op xs t) m)
  add-Matches xs t f k = (
    refl,
    record {
      inv = add-Inv b xs t f v.inv;
      same = entries-add b xs t v.inv f ∙ ap (λ l. l ++ (xs, t) ∷ []) v.same;
      each = Each-append width m (xs, t) v.each k;
    },
  )

  reset-Matches : Matches width (op_step reset_op b) (spec_step reset_op m)
  reset-Matches = (refl, record { inv = (reset_lem b).0; same = entries-reset b; each = tt })

  write-View :
      (n : ℕ) (xs : Bytes)
      → n < b.count
      → length xs ≡ size_of b n
      → Sized width xs (typ_of b n)
      → View width (write b (meta b n) n xs) (list_set m n (xs, typ_of b n))
  write-View n xs h e k = record {
    inv = write-Inv b (meta b n) n xs v.inv;
    same = entries-write b n xs v.inv h e ∙ ap (λ l. list_set l n (xs, typ_of b n)) v.same;
    each = Each-set width m n (xs, typ_of b n) v.each k;
  }

  -- An update of an argument that passes the test.
  abbrev tested : ℕ → Bytes → PackError → Bool → Option PackError × Builder
  tested n xs e ok =
      if ltb n b.count
      then (if ok then (none, write b (meta b n) n xs) else (some e, b))
      else (some index_out_of_range, b)

  tested-Matches :
      (n : ℕ) (xs : Bytes) (e : PackError) (test : Arg → Bool) (x : Option PackError × Builder)
      → x ≡ tested n xs e (test (entry b n))
      → (test (entry b n) ≡ true
          → n < b.count
          → (length xs ≡ size_of b n) × Sized width xs (typ_of b n))
      → Matches width (result x.0, x.1) (replace (pos n) xs e test m)
  tested-Matches n xs e test x r h = elim (Bool-cases (ltb n b.count)) [
    | inr f ↦
        let impl : x ≡ (some index_out_of_range, b) = r ∙ rw f refl in
        let spec = replace-none (pos n) xs e test m (spec_out n (ground arith)) in
        rw (impl, spec) (refl, v)
    | inl f ↦
        let inside : n < b.count = ground arith in
        elim (Bool-cases (test (entry b n))) [
          | inr q ↦
              let impl : x ≡ (some e, b) = r ∙ rw (f, q) refl in
              let spec = replace_miss (pos n) xs e test m (entry b n) (spec_in n inside) q in
              rw (impl, spec) (refl, v)
          | inl q ↦
              let impl : x ≡ (none, write b (meta b n) n xs) = r ∙ rw (f, q) refl in
              let spec = replace_hit (pos n) xs e test m (entry b n) (spec_in n inside) q in
              rw (impl, spec) (refl, write-View n xs inside (h q inside).0 (h q inside).1)
        ]
  ]

  set_bytes-Matches :
      (i : ℤ) (xs : Bytes)
      → Matches width (op_step (set_bytes_op i xs) b) (spec_step (set_bytes_op i xs) m)
  set_bytes-Matches (negsuc k) xs =
      let e : set_bytes b (negsuc k) xs ≡ (some index_out_of_range, b) =
        unfold set_bytes in ground arith in
      rw e (refl, v)
  set_bytes-Matches (pos n) xs =
      tested-Matches n xs size_mismatch (λ a. length xs == length a.0) (set_bytes b (pos n) xs)
        (rw (length-value b n) (unfold set_bytes in ground arith))
        (λ q h.
          let e : length xs ≡ length (value b n) = ground arith in
          (
            e ∙ length-value b n,
            Sized-length width xs (value b n) (typ_of b n) e
                (Each-at width m n (entry b n) v.each (spec_in n h)),
          ))

  set-Matches :
      (i : ℤ) (t : ℕ) (xs : Bytes)
      → length xs ≡ width t
      → Matches width (op_step (set_op i t xs) b) (spec_step (set_op i t xs) m)
  set-Matches (negsuc k) t xs w =
      let e : set b (negsuc k) t xs ≡ (some index_out_of_range, b) = unfold set in ground arith in
      rw e (refl, v)
  set-Matches (pos n) t xs w =
      tested-Matches n xs type_mismatch (λ a. same_type a.1 t) (set b (pos n) t xs)
        (unfold set in ground arith)
        (λ q h.
          let o : typ_of b n ≡ some t = typed (typ_of b n) t q in
          let k : Sized width (value b n) (some t) =
            subst (Sized width (value b n)) o
              (Each-at width m n (entry b n) v.each (spec_in n h)) in
          (
            w ∙ sym k.1 ∙ length-value b n,
            subst (Sized width xs) (sym o) (omega (arith, k.0, k.1, w), w),
          ))

  read_entries : map some (values b) ≡ map (λ x. some x.0) (entries b)
  read_entries =
      map-tabulate some (value b) (λ i. some (value b i)) b.count (λ i. refl)
      ∙ sym (map-tabulate (λ x. some x.0) (entry b) (λ i. some (value b i)) b.count (λ i. refl))

  params-View : View width (params b).1 m
  params-View = record { inv = params-Inv b v.inv; same = entries-params b ∙ v.same; each = v.each }

  no_params : b.count ≡ 0 → params b ≡ (returned none, b)
  unfolding params
  no_params e = ground arith

  read_spec_cons : (l : Spec) → 0 < length l → read_spec l ≡ some (map (λ x. some x.0) l)
  read_spec_cons [] h = absurd (omega arith)
  read_spec_cons (a ∷ l) h = refl

  read_spec_nil : (l : Spec) → length l ≡ 0 → read_spec l ≡ none
  read_spec_nil [] h = refl
  read_spec_nil (a ∷ l) h = absurd (omega arith)

  as_many : length m ≡ b.count
  as_many = ap length (sym v.same) ∙ length-tabulate (entry b) b.count

  filled : Filled b
  filled i h = omega (
    arith,
    length-value b i,
    Sized-pos width (value b i) (typ_of b i) (Each-at width m i (entry b i) v.each (spec_in i h)),
  )

  params_answer : found (params b).0 (params b).1 (sizes b) ≡ reads (read_spec m)
  params_answer = elim (Bool-cases (b.count == 0)) [
    | inl e ↦
        let z : b.count ≡ 0 = ground arith in rw (no_params z, read_spec_nil m (as_many ∙ z)) refl
    | inr e ↦
        let z : 0 < b.count = ground arith in
        let (ps, some_ps, many, bytes) = params_read b v.inv filled z in
        rw some_ps (
          ap (λ l. reads (some l)) (bytes ∙ read_entries ∙ ap (map (λ x. some x.0)) v.same)
          ∙ ap reads (sym (read_spec_cons m (omega (arith, z, as_many)))))
  ]

  pub step-Matches :
      (o : Op)
      → Proper width o
      → b.spill_len + room o < 2147483648
      → Matches width (op_step o b) (spec_step o m)
  step-Matches (add_op xs t) p f = add-Matches xs t (p.0, omega (arith, f)) p.1
  step-Matches (set_op i t xs) p f = set-Matches i t xs p
  step-Matches (set_bytes_op i xs) p f = set_bytes-Matches i xs
  step-Matches params_op p f = (params_answer, params-View)
  step-Matches reset_op p f = reset-Matches
