-- ===== src/Launch/Updates/Types.antt =====
-- Packed arguments keep the types that they were packed with.
use gocudrv.Base.{
  ℕ, ◌≡◌, ◌∙◌, ap, refl, subst, Bool, true, false, ◌||◌, not, Option, none, some, List, [], ◌∷◌,
  map, ◌==◌, ltb, ℤ, pos, negsuc, leb_ℤ, ltb_ℤ, to_uint, load, length, length-load, Bytes,
  get_elem?, arith, Bool-cases, inl, inr, ◌⊎◌, ◌≤◌, zero, suc,
}
use gocudrv.Driver.Errors.{Err}
use gocudrv.Argpack.{
  Builder, ArgMeta, PackError, index_out_of_range, meta, tabulate, params, set, set_bytes, write,
  same_type,
}
use gocudrv.Argpack.Params.{tabulate_cong, get_elem?-tabulate, length-tabulate, params_shape}
use gocudrv.Launch.Args.{Objects, device_ptr_type, elem_type, max_raw_arg_bytes}
use gocudrv.Launch.Packed.{
  pack_error, update_result, set_packed, set_device_ptr, set_packed_buffer, set_raw,
}
use gocudrv.Launch.Updates.{
  Update, value_update, device_ptr_update, buffer_update, raw_update, launch_update, signature,
  checked, typed, sized, or_else, allowed, apply_update, apply_updates,
}

meta-write :
    (b : Builder) (m : ArgMeta) (i : ℕ) (xs : Bytes) (j : ℕ) → meta (write b m i xs) j ≡ meta b j
unfolding meta write
meta-write b m i xs j = ground arith

count-write : (b : Builder) (m : ArgMeta) (i : ℕ) (xs : Bytes) → (write b m i xs).count ≡ b.count
unfolding write
count-write b m i xs = ground arith

signature-write :
    (b : Builder) (m : ArgMeta) (i : ℕ) (xs : Bytes) → signature (write b m i xs) ≡ signature b
unfolding signature
signature-write b m i xs =
    let before : ℕ → Option ℕ × ℕ = λ j. ((meta b j).typ, (meta b j).size) in
    let after : ℕ → Option ℕ × ℕ =
      λ j. ((meta (write b m i xs) j).typ, (meta (write b m i xs) j).size) in
    ap (tabulate after) (count-write b m i xs)
    ∙ tabulate_cong after before b.count
        (λ j _. ap (λ (x : ArgMeta). (x.typ, x.size)) (meta-write b m i xs j))

signature-params : (b : Builder) → signature (params b).1 ≡ signature b
unfolding signature meta
signature-params b = let (ps, q, e) = params_shape b in ap signature e

not_less : {a b : ℕ} → ltb a b ≡ false → b ≤ a
not_less e = ground arith

get_elem?-beyond : {A : Type 0} (xs : List A) (k : ℕ) → length xs ≤ k → get_elem? xs k ≡ none
get_elem?-beyond [] k h = refl
get_elem?-beyond (x ∷ xs) zero h = absurd (omega (arith, h))
get_elem?-beyond (x ∷ xs) (suc k) h = get_elem?-beyond xs k (omega (arith, h))

-- What an index finds among the types.
indexed :
    (b : Builder) (k : ℕ)
    → ((ltb k b.count ≡ true)
        × (get_elem? (signature b) k ≡ some ((meta b k).typ, (meta b k).size)))
      ⊎ ((ltb k b.count ≡ false) × (get_elem? (signature b) k ≡ none))
unfolding signature
indexed b k = elim (Bool-cases (ltb k b.count)) [
  | inl e ↦
      inl (e, get_elem?-tabulate (λ i. ((meta b i).typ, (meta b i).size)) b.count k (ground arith))
  | inr e ↦ inr (
    e,
    get_elem?-beyond (tabulate (λ i. ((meta b i).typ, (meta b i).size)) b.count) k (
        omega (
          arith,
          length-tabulate {A = Option ℕ × ℕ} (λ i. ((meta b i).typ, (meta b i).size)) b.count,
          not_less e,
        )),
  )
]

module _ (objects : Objects) where
  abbrev error_of : Option PackError → Option Err
  error_of none = none
  error_of (some e) = some (pack_error objects e)

  update_result_lem :
      (r : Option PackError × Builder) → update_result objects r ≡ (error_of r.0, some r.1)
  update_result_lem (none, b) = refl
  update_result_lem (some e, b) = refl

  -- An update that changes at most bytes, and whose error the types tell.
  abbrev Told : Builder → Option Err → Option Err × Option Builder → Type 0
  Told b e r = (r.0 ≡ e) × (signature (or_else objects b r.1) ≡ signature b)

  abbrev outside : Builder → ℤ → Bool
  outside b i = ltb_ℤ i (pos 0) || not (ltb_ℤ i (pos b.count))

  set_refused :
      (b : Builder) (i : ℤ) (t : ℕ) (xs : Bytes)
      → outside b i ≡ true
      → set b i t xs ≡ (some index_out_of_range, b)
  unfolding set
  set_refused b i t xs e = rw e refl

  set_inside :
      (b : Builder) (k t : ℕ) (xs : Bytes)
      → outside b (pos k) ≡ false
      → Told b
          (typed t ((meta b k).typ, (meta b k).size))
          (update_result objects (set b (pos k) t xs))
  unfolding set
  set_inside b k t xs e = elim (Bool-cases (same_type (meta b k).typ t)) [
    | inl f ↦ rw (e, f) (refl, signature-write b (meta b k) k xs)
    | inr f ↦ rw (e, f) (refl, refl)
  ]

  set-Told :
      (b : Builder) (i : ℤ) (t : ℕ) (xs : Bytes)
      → Told b (checked (signature b) i (typed t)) (update_result objects (set b i t xs))
  set-Told b (negsuc i) t xs = rw (set_refused b (negsuc i) t xs (ground arith)) (refl, refl)
  set-Told b (pos k) t xs = elim (indexed b k) [
    | inl (e, f) ↦ rw (checked, f) (set_inside b k t xs (ground arith))
    | inr (e, f) ↦ rw (checked, f, set_refused b (pos k) t xs (ground arith)) (refl, refl)
  ]

  set_bytes_refused :
      (b : Builder) (i : ℤ) (xs : Bytes)
      → outside b i ≡ true
      → set_bytes b i xs ≡ (some index_out_of_range, b)
  unfolding set_bytes
  set_bytes_refused b i xs e = rw e refl

  set_bytes_inside :
      (b : Builder) (k : ℕ) (xs : Bytes)
      → outside b (pos k) ≡ false
      → Told b
          (sized (length xs) ((meta b k).typ, (meta b k).size))
          (update_result objects (set_bytes b (pos k) xs))
  unfolding set_bytes
  set_bytes_inside b k xs e = elim (Bool-cases (length xs == (meta b k).size)) [
    | inl f ↦ rw (e, f) (refl, signature-write b (meta b k) k xs)
    | inr f ↦ rw (e, f) (refl, refl)
  ]

  set_bytes-Told :
      (b : Builder) (i : ℤ) (xs : Bytes)
      → Told b
          (checked (signature b) i (sized (length xs)))
          (update_result objects (set_bytes b i xs))
  set_bytes-Told b (negsuc i) xs =
      rw (set_bytes_refused b (negsuc i) xs (ground arith)) (refl, refl)
  set_bytes-Told b (pos k) xs = elim (indexed b k) [
    | inl (e, f) ↦ rw (checked, f) (set_bytes_inside b k xs (ground arith))
    | inr (e, f) ↦ rw (checked, f, set_bytes_refused b (pos k) xs (ground arith)) (refl, refl)
  ]

  set_bytes_of :
      (b : Builder) (i : ℤ) (n : ℕ) (xs : Bytes)
      → length xs ≡ n
      → Told b (checked (signature b) i (sized n)) (update_result objects (set_bytes b i xs))
  set_bytes_of b i n xs e =
      subst
        (λ k. Told b (checked (signature b) i (sized k)) (update_result objects (set_bytes b i xs)))
        e (set_bytes-Told b i xs)

  apply_update-Told :
      (u : Update) (b : Builder)
      → Told b (allowed objects (signature b) u) (apply_update objects u b)
  unfolding apply_update allowed set_packed set_device_ptr set_packed_buffer set_raw
  apply_update-Told (value_update i t v) b = set-Told b i (elem_type t) _
  apply_update-Told (device_ptr_update i ptr) b = set-Told b i device_ptr_type _
  apply_update-Told (buffer_update i none) b = (refl, refl)
  apply_update-Told (buffer_update i (some n)) b = elim (Bool-cases (objects.buffers n).closed) [
    | inl e ↦ rw e (refl, refl)
    | inr e ↦ rw e (set-Told b i device_ptr_type _)
  ]
  apply_update-Told (raw_update i none size) b = (refl, refl)
  apply_update-Told (raw_update i (some m) size) b =
      elim (Bool-cases (leb_ℤ size (pos 0) || ltb_ℤ (pos max_raw_arg_bytes) size)) [
        | inl e ↦ rw e (refl, refl)
        | inr e ↦ rw e (
            set_bytes_of b i (to_uint size) (load m 0 (to_uint size))
              (length-load m 0 (to_uint size)))
      ]
  apply_update-Told launch_update b = (refl, signature-params b)

  -- Packed arguments keep the types and the sizes that they were packed with over any sequence of
  -- `SetPacked`, `SetDevicePtr`, `SetPackedBuffer`, `SetRaw` and launches; and whether each of these updates is
  -- accepted, and with which error it is refused, depends on the packed arguments through those types
  -- and sizes only, whatever the updates before it were.
  pub updates_keep_types :
      (us : List Update) (b : Builder)
      → (signature (apply_updates objects us b).1 ≡ signature b)
        × ((apply_updates objects us b).0 ≡ map (allowed objects (signature b)) us)
  unfolding apply_updates
  updates_keep_types [] b = (refl, refl)
  updates_keep_types (u ∷ us) b =
      let (e, f) = apply_update-Told u b in
      let (g, h) = updates_keep_types us (or_else objects b (apply_update objects u b).1) in
      (
        g ∙ f,
        ap (λ x. x ∷ (apply_updates objects us (or_else objects b (apply_update objects u b).1)).0)
              e
            ∙ ap (λ xs. allowed objects (signature b) u ∷ xs)
                (h ∙ ap (λ types. map (allowed objects types) us) f),
      )
