-- ===== src/Argpack/Refinement/Each.antt =====
-- The lists that the builders of internal/argpack stand for, each argument of the width of its type.
use gocudrv.Base.{
  ◌<◌, ℕ, zero, suc, ◌≤◌, ◌≡◌, ◌∙◌, refl, ap, subst, true, Option, none, some, [], ◌∷◌, ◌++◌,
  length, get_elem?, set as list_set, arith, Bytes,
}
use gocudrv.Argpack.{same_type}
use gocudrv.Argpack.Entries.{Arg}
use gocudrv.Argpack.Model.{Spec, Sized}

-- Every argument of a type has its width.
abbrev pub Each : (ℕ → ℕ) → Spec → Type 0
Each width [] = Unit
Each width (a ∷ m) = Sized width a.0 a.1 × Each width m

pub Each-append :
    (width : ℕ → ℕ) (m : Spec) (a : Arg)
    → Each width m
    → Sized width a.0 a.1
    → Each width (m ++ a ∷ [])
Each-append width [] a h k = (k, tt)
Each-append width (x ∷ m) a h k = (h.0, Each-append width m a h.1 k)

pub Each-set :
    (width : ℕ → ℕ) (m : Spec) (n : ℕ) (a : Arg)
    → Each width m
    → Sized width a.0 a.1
    → Each width (list_set m n a)
Each-set width [] n a h k = tt
Each-set width (x ∷ m) zero a h k = (k, h.1)
Each-set width (x ∷ m) (suc n) a h k = (h.0, Each-set width m n a h.1 k)

pub Each-at :
    (width : ℕ → ℕ) (m : Spec) (n : ℕ) (a : Arg)
    → Each width m
    → get_elem? m n ≡ some a
    → Sized width a.0 a.1
Each-at width [] n a h e = absurd cc
Each-at width (x ∷ m) zero a h e = let q : x ≡ a = cc in subst (λ y. Sized width y.0 y.1) q h.0
Each-at width (x ∷ m) (suc n) a h e = Each-at width m n a h.1 e

pub get_elem?_beyond : (m : Spec) (n : ℕ) → length m ≤ n → get_elem? m n ≡ none
get_elem?_beyond [] n h = refl
get_elem?_beyond (x ∷ m) zero h = absurd (omega arith)
get_elem?_beyond (x ∷ m) (suc n) h = get_elem?_beyond m n (omega arith)

pub Sized-length :
    (width : ℕ → ℕ) (xs ys : Bytes) (t : Option ℕ)
    → length xs ≡ length ys
    → Sized width ys t
    → Sized width xs t
Sized-length width xs ys none e k = omega (arith, e, k)
Sized-length width xs ys (some t) e k = (omega (arith, e, k.0), e ∙ k.1)

-- Such an argument has a byte at least.
pub Sized-pos : (width : ℕ → ℕ) (xs : Bytes) (t : Option ℕ) → Sized width xs t → 0 < length xs
Sized-pos width xs none k = k
Sized-pos width xs (some t) k = k.0

pub typed : (o : Option ℕ) (t : ℕ) → same_type o t ≡ true → o ≡ some t
typed none t e = absurd cc
typed (some u) t e = ap some (ground arith)
