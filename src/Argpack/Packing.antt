-- ===== src/Argpack/Packing.antt =====
-- Packing the arguments of a launch one after another, and reading them as the driver does.
use gocudrv.Base.{
  map, map-append, ◌∙◌, sym, refl, ℕ, zero, suc, ap, ◌+◌, ◌≤◌, ◌<◌, ◌≡◌, ◌≢◌, refl, sym, ◌∙◌,
  Option, some, List, [], ◌∷◌, ◌++◌, append_assoc, append-nil, arith, length, length-load, Bytes,
  get_elem?, subst,
}
use gocudrv.Argpack.{
  Builder, Pointer, arena_alloc, add_inline, add_spill, add, value, params, reset, tabulate,
  returned,
}
use gocudrv.Argpack.Layout.{size_of, offset_of, align_up_bounds}
use gocudrv.Argpack.Invariant.{Inv, add_cases}
use gocudrv.Argpack.Params.{
  values, values-add, length-tabulate, get_elem?-tabulate, sizes, read_all, params_read, Filled,
}
use gocudrv.Argpack.Updates.{reset_lem}

-- Arguments as `Pack` and `Launch` give them to `Add` and `AddBytes`.
abbrev pub Args : Type 0
Args = List (Bytes × Option ℕ)

unfoldable pub add_all : Builder → Args → Builder
add_all b [] = b
add_all b ((xs, t) ∷ rest) = add_all (add b xs t) rest

abbrev pub contents : Args → List Bytes
contents [] = []
contents ((xs, t) ∷ rest) = xs ∷ contents rest

-- Every size is a `uint16`, and not zero.
abbrev pub Small : Args → Type 0
Small [] = Unit
Small ((xs, t) ∷ rest) = (0 < length xs) × (length xs < 65536) × Small rest

-- The arena bytes that the arguments need at most, alignment included.
abbrev pub demand : Args → ℕ
demand [] = 0
demand ((xs, t) ∷ rest) = 7 + length xs + demand rest

pub spill_len-add :
    (b : Builder) (xs : Bytes) (t : Option ℕ) → (add b xs t).spill_len ≤ b.spill_len + 7 + length xs
spill_len-add b xs t =
    add_cases (λ c. c.spill_len ≤ b.spill_len + 7 + length xs) b xs t
      (λ _ _. unfold add_inline in ground arith)
      (λ _. unfold add_spill arena_alloc in ground (arith, align_up_bounds b.spill_len))

values-add_all :
    (b : Builder) (args : Args)
    → Inv b
    → Small args
    → b.spill_len + demand args < 2147483648
    → Inv (add_all b args) × (values (add_all b args) ≡ values b ++ contents args)
unfolding add_all
values-add_all b [] v s d = (v, sym (append-nil (values b)))
values-add_all b ((xs, t) ∷ rest) v s d =
    let (w, e) = values-add b xs t v (s.1, omega arith) in
    let (u, f) = values-add_all (add b xs t) rest w s.2 (omega (arith, spill_len-add b xs t)) in
    (u, rw (f, e) (append_assoc (values b) (xs ∷ []) (contents rest)))

pub spill_len-reset : (b : Builder) → (reset b).spill_len ≡ 0
unfolding reset
spill_len-reset b = ground arith

pub length-value : (b : Builder) (i : ℕ) → length (value b i) ≡ size_of b i
unfolding value
length-value b i = ground (
  arith,
  length-load (b.inline_values i) 0 (size_of b i),
  length-load b.arena (offset_of b i) (size_of b i),
)

-- `Params` gives one pointer for each argument, through which a reader of the arguments' sizes finds
-- exactly the given bytes, in order.
abbrev pub Reads : Builder → Args → Type 0
Reads c args =
    (ps : List Pointer) × ((params c).0 ≡ returned (some ps))
    × (length ps ≡ length args)
    × (read_all (params c).1 ps (map length (contents args)) ≡ map some (contents args))

length-contents : (args : Args) → length (contents args) ≡ length args
length-contents [] = refl
length-contents ((xs, t) ∷ rest) = ap suc (length-contents rest)

pub map-tabulate :
    {A B : Type 0} (f : A → B) (g : ℕ → A) (h : ℕ → B) (n : ℕ)
    → ((i : ℕ) → f (g i) ≡ h i)
    → map f (tabulate g n) ≡ tabulate h n
unfolding tabulate
map-tabulate f g h zero e = refl
map-tabulate f g h (suc n) e =
    map-append f (tabulate g n) (g n ∷ []) ∙ cc (map-tabulate f g h n e, e n)

Small-at :
    (args : Args)
    → Small args
    → (i : ℕ) (xs : Bytes) → get_elem? (contents args) i ≡ some xs
    → 0 < length xs
Small-at [] s i xs e = absurd cc
Small-at ((ys, t) ∷ rest) s zero xs e =
    let same : ys ≡ xs = cc in subst (λ z. 0 < length z) same s.0
Small-at ((ys, t) ∷ rest) s (suc i) xs e = Small-at rest s.2 i xs e

-- A builder that holds the arguments hands them to the driver.
Reads-of_values :
    (c : Builder) (args : Args)
    → Inv c
    → args ≢ []
    → Small args
    → values c ≡ contents args
    → Reads c args
Reads-of_values c args v ne small e =
    let (ps, found, many, bytes) = params_read c v sized filled in
    (ps, found, many ∙ counted, ap (read_all (params c).1 ps) measured ∙ bytes ∙ ap (map some) e)
  where
    counted : c.count ≡ length args
    counted = omega (arith, length-tabulate (value c) c.count, ap length e, length-contents args)

    sized : Filled c
    sized i h =
        let at = get_elem?-tabulate (value c) c.count i h in
        let given : get_elem? (contents args) i ≡ some (value c i) =
          ap (λ l. get_elem? l i) (sym e) ∙ at in
        omega (arith, Small-at args small i (value c i) given, length-value c i)

    filled : 0 < c.count
    filled = ground (arith, counted)

    measured : map length (contents args) ≡ sizes c
    measured =
        ap (map length) (sym e) ∙ map-tabulate length (value c) (size_of c) c.count (length-value c)

-- After at least one argument is packed into a builder that has been reset, none of size zero, each small
-- enough for its size field and all together below the arena's limit of 2^31 bytes, `Params` does not
-- panic, and a reader of the pointers that it returns finds each argument's bytes, in order, whatever the builder held before.
pub pack-Reads :
    (b : Builder) (args : Args)
    → args ≢ []
    → Small args
    → demand args < 2147483648
    → Reads (add_all (reset b) args) args
pack-Reads b args ne s d = Reads-of_values (add_all (reset b) args) args packed.0 ne s packed.1
  where
    packed : Inv (add_all (reset b) args) × (values (add_all (reset b) args) ≡ contents args)
    packed =
        let (w, n, _) = reset_lem b in
        let (u, e) = values-add_all (reset b) args w s (omega (arith, spill_len-reset b)) in
        (u, e ∙ ap (λ l. l ++ contents args) n)
