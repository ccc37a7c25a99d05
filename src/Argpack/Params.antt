-- ===== src/Argpack/Params.antt =====
-- The builder as a list of byte strings, and what the driver finds behind the pointers of `Params`.
use gocudrv.Base.{
  ℕ, zero, suc, ◌<◌, ◌≡◌, refl, sym, ◌∙◌, ◌⊎◌, inl, inr, Bool, true, false, ◌≤◌, Option, some, List,
  [], ◌∷◌, ◌++◌, arith, length, length-append, get_elem?, Bytes, ap, subst, map, list_ext, zip_with,
  length-zip_with, length-map, get_elem?-zip_with, get_elem?-map,
}
use gocudrv.Argpack.{
  Builder, Pointer, nil_pointer, slot, spill, meta, add_inline, add_spill, add, value, params, read,
  arg_pointer, tabulate, append_pointers, after_loop, returned,
}
use gocudrv.Argpack.Layout.{size_of, Placed}
use gocudrv.Argpack.Invariant.{Inv, Fits, add_cases, add-Inv}
use gocudrv.Argpack.Values.{value-add_new, value-add_old}

-- The abstract view: the bytes of the arguments in order.
abbrev pub values : Builder → List Bytes
values b = tabulate (value b) b.count

module _ {A : Type 0} where
  pub tabulate_cong :
      (f g : ℕ → A) (n : ℕ) → ((i : ℕ) → i < n → f i ≡ g i) → tabulate f n ≡ tabulate g n
  unfolding tabulate
  tabulate_cong f g zero h = refl
  tabulate_cong f g (suc n) h =
      cc (tabulate_cong f g n (λ i p. h i (omega arith)), h n (omega arith))

  pub length-tabulate : (f : ℕ → A) (n : ℕ) → length (tabulate f n) ≡ n
  unfolding tabulate
  length-tabulate f zero = refl
  length-tabulate f (suc n) =
      omega (arith, length-append (tabulate f n) (f n ∷ []), length-tabulate f n)

  get_elem?-append_left :
      (xs ys : List A) (i : ℕ) → i < length xs → get_elem? (xs ++ ys) i ≡ get_elem? xs i
  get_elem?-append_left [] ys i h = elim h [ ]
  get_elem?-append_left (x ∷ xs) ys zero h = refl
  get_elem?-append_left (x ∷ xs) ys (suc i) h = get_elem?-append_left xs ys i (omega arith)

  get_elem?-append_end :
      (xs : List A) (y : A) (i : ℕ) → i ≡ length xs → get_elem? (xs ++ y ∷ []) i ≡ some y
  get_elem?-append_end [] y zero h = refl
  get_elem?-append_end [] y (suc i) h = absurd (omega arith)
  get_elem?-append_end (x ∷ xs) y zero h = absurd (omega arith)
  get_elem?-append_end (x ∷ xs) y (suc i) h = get_elem?-append_end xs y i (omega arith)

  pub get_elem?-tabulate : (f : ℕ → A) (n i : ℕ) → i < n → get_elem? (tabulate f n) i ≡ some (f i)
  unfolding tabulate
  get_elem?-tabulate f zero i h = elim h [ ]
  get_elem?-tabulate f (suc n) i h = ground (
    arith,
    length-tabulate f n,
    get_elem?-append_left (tabulate f n) (f n ∷ []) i,
    get_elem?-append_end (tabulate f n) (f n) i,
    get_elem?-tabulate f n i,
  )

pub count-add : (b : Builder) (xs : Bytes) (t : Option ℕ) → (add b xs t).count ≡ suc b.count
count-add b xs t =
    add_cases (λ c. c.count ≡ suc b.count) b xs t (λ _ _. unfold add_inline in ground arith)
      (λ _. unfold add_spill in ground arith)

-- For a builder that satisfies the invariant and an argument that fits the fields which record its
-- size and its offset, `add` keeps the invariant, appends the bytes to the arguments, and changes none
-- of those already packed.
pub values-add :
    (b : Builder) (xs : Bytes) (t : Option ℕ)
    → Inv b
    → Fits b xs
    → Inv (add b xs t) × (values (add b xs t) ≡ values b ++ xs ∷ [])
values-add b xs t v f =
    (add-Inv b xs t f v, ap (tabulate (value (add b xs t))) (count-add b xs t) ∙ appended)
  where
    appended : tabulate (value (add b xs t)) (suc b.count) ≡ values b ++ xs ∷ []
    appended =
        unfold tabulate in
        cc (
          tabulate_cong (value (add b xs t)) (value b) b.count (λ i h. value-add_old b xs t i h v),
          value-add_new b xs t f v,
        )

-- The pointers of an argument lead to its bytes.
read-arg_pointer :
    (b : Builder) (i : ℕ) → Placed b i → read b (arg_pointer b i) (size_of b i) ≡ some (value b i)
unfolding read value
read-arg_pointer b i p = ground arith

-- A loop that does not panic has the pointers of all arguments.
append_pointers_all :
    (b : Builder) (n : ℕ)
    → (append_pointers b n).0 ≡ false
    → (append_pointers b n).1 ≡ tabulate (arg_pointer b) n
unfolding append_pointers tabulate
append_pointers_all b zero h = refl
append_pointers_all b (suc n) h = let ih = append_pointers_all b n in ground arith

-- No argument has size zero.
abbrev pub Filled : Builder → Type 0
Filled b = (i : ℕ) → i < b.count → 0 < size_of b i

append_pointers_runs :
    (b : Builder) (n : ℕ) → Inv b → Filled b → n ≤ b.count → (append_pointers b n).0 ≡ false
unfolding append_pointers
append_pointers_runs b zero v f h = refl
append_pointers_runs b (suc n) v f h =
    let ih = append_pointers_runs b n v f (omega arith) in
    let p = v.placed n (omega arith) in let q = f n (omega arith) in ground arith

after_loop_shape :
    (b : Builder) (r : Bool × List Pointer)
    → (q : Bool) × ((after_loop b r).1 ≡ record b { spill_pointers = r.1; dirty = q })
      × ((r.0 ≡ true) → q ≡ b.dirty)
after_loop_shape b (false, ps) = (false, refl, λ e. absurd cc)
after_loop_shape b (true, ps) = (b.dirty, refl, λ e. refl)

params_cases :
    (b : Builder)
    → ((params b).1 ≡ b)
      ⊎ ((b.dirty ≡ true) × ((params b).1 ≡ (after_loop b (append_pointers b b.count)).1))
unfolding params
params_cases b = ground arith

-- `Params` changes the cached pointers and their flag, and nothing else.
pub params_shape :
    (b : Builder)
    → (ps : List Pointer) × (q : Bool) × ((params b).1
        ≡ record b { spill_pointers = ps; dirty = q })
params_shape b = elim (params_cases b) [
  | inl e ↦ (b.spill_pointers, b.dirty, e)
  | inr (_, e) ↦
      let (q, same, _) = after_loop_shape b (append_pointers b b.count) in
      ((append_pointers b b.count).1, q, e ∙ same)
]

-- `Params` moves no argument.
read-params : (b : Builder) (p : Pointer) (n : ℕ) → read (params b).1 p n ≡ read b p n
unfolding read
read-params b p n = let (ps, q, e) = params_shape b in ap (λ c. read c p n) e ∙ same p ps q
  where
    same :
        (p : Pointer) (ps : List Pointer) (q : Bool)
        → read (record b { spill_pointers = ps; dirty = q }) p n ≡ read b p n
    same nil_pointer ps q = refl
    same (slot i) ps q = refl
    same (spill g off) ps q = refl

after_loop_returns :
    (b : Builder) (r : Bool × List Pointer) → r.0 ≡ false → (after_loop b r).0 ≡ returned (some r.1)
after_loop_returns b (false, ps) e = refl
after_loop_returns b (true, ps) e = absurd cc

params_eq :
    (b : Builder)
    → Inv b
    → Filled b
    → 0 < b.count
    → (params b).0 ≡ returned (some (tabulate (arg_pointer b) b.count))
unfolding params
params_eq b v f h =
    let runs = append_pointers_runs b b.count v f (omega arith) in
    let all = append_pointers_all b b.count runs in
    let made = after_loop_returns b (append_pointers b b.count) runs in
    ground (arith, v.cached, inline_only)
  where
    inline_only :
        b.has_spill ≡ false → tabulate b.inline_pointers b.count ≡ tabulate (arg_pointer b) b.count
    inline_only e =
        tabulate_cong b.inline_pointers (arg_pointer b) b.count λ i p. ground (arith, v.placed i p)

abbrev pub sizes : Builder → List ℕ
sizes b = tabulate (size_of b) b.count

-- The bytes that a reader finds through pointers `ps`, reading so many bytes through each.
abbrev pub read_all : Builder → List Pointer → List ℕ → List (Option Bytes)
read_all b ps ns = zip_with (read b) ps ns

-- `Params` of a builder that satisfies the invariant and has arguments, none of size zero, does not panic and
-- returns one pointer for each of them, and a reader who reads each argument's size through its pointer finds the arguments'
-- bytes, in order.
pub params_read :
    (b : Builder)
    → Inv b
    → Filled b
    → 0 < b.count
    → (ps : List Pointer) × ((params b).0 ≡ returned (some ps))
      × (length ps ≡ b.count)
      × (read_all (params b).1 ps (sizes b) ≡ map some (values b))
params_read b v f h = (
  tabulate (arg_pointer b) b.count,
  params_eq b v f h,
  length-tabulate (arg_pointer b) b.count,
  list_ext _ _ lengths at,
)
  where
    read_length :
        length (read_all (params b).1 (tabulate (arg_pointer b) b.count) (sizes b)) ≡ b.count
    read_length =
        length-zip_with (read (params b).1) (tabulate (arg_pointer b) b.count) (sizes b)
          (length-tabulate (arg_pointer b) b.count ∙ sym (length-tabulate (size_of b) b.count))
        ∙ length-tabulate (arg_pointer b) b.count

    lengths :
        length (read_all (params b).1 (tabulate (arg_pointer b) b.count) (sizes b))
        ≡ length (map some (values b))
    lengths = read_length ∙ sym (length-map (values b) some ∙ length-tabulate (value b) b.count)

    at :
        (i : ℕ)
        → i < length (read_all (params b).1 (tabulate (arg_pointer b) b.count) (sizes b))
        → get_elem? (read_all (params b).1 (tabulate (arg_pointer b) b.count) (sizes b)) i
          ≡ get_elem? (map some (values b)) i
    at i p =
        let q : i < b.count = omega (arith, read_length) in
        get_elem?-zip_with (read (params b).1) (tabulate (arg_pointer b) b.count) (sizes b) i
          (get_elem?-tabulate (arg_pointer b) b.count i q)
          (get_elem?-tabulate (size_of b) b.count i q)
        ∙ ap some
            (read-params b (arg_pointer b i) (size_of b i) ∙ read-arg_pointer b i (v.placed i q))
        ∙ sym (get_elem?-map some (values b) i (get_elem?-tabulate (value b) b.count i q))

-- With the cached pointers replaced, the invariant holds if they are right or are to be computed again.
recached-Inv :
    (b : Builder) (ps : List Pointer) (q : Bool)
    → Inv b
    → (b.has_spill ≡ true → q ≡ false → ps ≡ tabulate (arg_pointer b) b.count)
    → Inv (record b { spill_pointers = ps; dirty = q })
unfolding meta
recached-Inv b ps q v h = record {
  overflow = v.overflow;
  within = v.within;
  placed = v.placed;
  apart = v.apart;
  cached = h;
}

after_loop-Inv :
    (b : Builder) (r : Bool × List Pointer)
    → Inv b
    → b.dirty ≡ true
    → (r.0 ≡ false → r.1 ≡ tabulate (arg_pointer b) b.count)
    → Inv (after_loop b r).1
after_loop-Inv b (false, ps) v d h = recached-Inv b ps false v (λ _ _. h refl)
after_loop-Inv b (true, ps) v d h = recached-Inv b ps b.dirty v (λ _ e. absurd (cc (d, e)))

-- `Params` keeps the invariant of a builder, the one of its cached pointers included, also if it panics.
pub params-Inv : (b : Builder) → Inv b → Inv (params b).1
params-Inv b v = elim (params_cases b) [
  | inl e ↦ subst Inv (sym e) v
  | inr (g, e) ↦
      subst Inv (sym e)
        (after_loop-Inv b (append_pointers b b.count) v g (append_pointers_all b b.count))
]
