-- ===== src/Argpack/Model.antt =====
-- The operations of a builder, on it and on a list of byte strings with their types.
use gocudrv.Base.{
  ℕ, ◌+◌, ◌<◌, ◌≡◌, Bool, Option, none, some, List, [], ◌∷◌, ◌++◌, map, length, get_elem?,
  set as list_set, Bytes, ℤ, pos, negsuc, to_uint, ◌==◌, if◌then◌else◌,
}
use gocudrv.Argpack.{
  Builder, PackError, index_out_of_range, type_mismatch, size_mismatch, add, set, set_bytes, reset,
  params, same_type, Outcome, returned, index_panic,
}
use gocudrv.Argpack.Params.{sizes, read_all}
use gocudrv.Argpack.Entries.{Arg}

-- The operations of the package. An added argument and a new value are given by their bytes.
pub data Op : Type 0 where
  add_op : Bytes → Option ℕ → Op
  set_op : ℤ → ℕ → Bytes → Op
  set_bytes_op : ℤ → Bytes → Op
  params_op : Op
  reset_op : Op

-- What an operation gives: an error or nil, or what a reader of the arguments' sizes finds through the
-- pointers, if there are any, or a panic.
pub data Answer : Type 0 where
  result : Option PackError → Answer
  reads : Option (List (Option Bytes)) → Answer
  panics : Answer

abbrev pub Spec : Type 0
Spec = List Arg

abbrev pub spec_at : ℤ → Spec → Option Arg
spec_at (pos n) m = get_elem? m n
spec_at (negsuc n) m = none

-- The new bytes of an argument, if the test passes.
abbrev pub replace : ℤ → Bytes → PackError → (Arg → Bool) → Spec → Answer × Spec
replace i xs e test m = elim (spec_at i m) [
  | none ↦ (result (some index_out_of_range), m)
  | some a ↦
      if test a then (result none, list_set m (to_uint i) (xs, a.1)) else (result (some e), m)
]

abbrev pub read_spec : Spec → Option (List (Option Bytes))
read_spec [] = none
read_spec (a ∷ m) = some (map (λ x. some x.0) (a ∷ m))

abbrev pub spec_step : Op → Spec → Answer × Spec
spec_step (add_op xs t) m = (result none, m ++ (xs, t) ∷ [])
spec_step (set_op i t xs) m = replace i xs type_mismatch (λ a. same_type a.1 t) m
spec_step (set_bytes_op i xs) m = replace i xs size_mismatch (λ a. length xs == length a.0) m
spec_step params_op m = (reads (read_spec m), m)
spec_step reset_op m = (result none, [])

abbrev pub found : Outcome → Builder → List ℕ → Answer
found (returned none) b ns = reads none
found (returned (some ps)) b ns = reads (some (read_all b ps ns))
found index_panic b ns = panics

abbrev pub op_step : Op → Builder → Answer × Builder
op_step (add_op xs t) b = (result none, add b xs t)
op_step (set_op i t xs) b = let (e, b') = set b i t xs in (result e, b')
op_step (set_bytes_op i xs) b = let (e, b') = set_bytes b i xs in (result e, b')
op_step params_op b = let (ps, b') = params b in (found ps b' (sizes b), b')
op_step reset_op b = (result none, reset b)

unfoldable pub spec_answers : List Op → Spec → List Answer
spec_answers [] m = []
spec_answers (o ∷ os) m = (spec_step o m).0 ∷ spec_answers os (spec_step o m).1

unfoldable pub answers : List Op → Builder → List Answer
answers [] b = []
answers (o ∷ os) b = (op_step o b).0 ∷ answers os (op_step o b).1

-- An argument is not empty, and the values of a type have its width.
abbrev pub Sized : (ℕ → ℕ) → Bytes → Option ℕ → Type 0
Sized width xs none = 0 < length xs
Sized width xs (some t) = (0 < length xs) × (length xs ≡ width t)

-- An argument that is added fits a 16-bit size.
abbrev pub Proper : (ℕ → ℕ) → Op → Type 0
Proper width (add_op xs t) = (length xs < 65536) × Sized width xs t
Proper width (set_op i t xs) = length xs ≡ width t
Proper width (set_bytes_op i xs) = Unit
Proper width params_op = Unit
Proper width reset_op = Unit

abbrev pub AllProper : (ℕ → ℕ) → List Op → Type 0
AllProper width [] = Unit
AllProper width (o ∷ os) = Proper width o × AllProper width os

-- The arena bytes that the added arguments need at most, alignment included.
abbrev pub room : Op → ℕ
room (add_op xs t) = 7 + length xs
room (set_op i t xs) = 0
room (set_bytes_op i xs) = 0
room params_op = 0
room reset_op = 0

abbrev pub rooms : List Op → ℕ
rooms [] = 0
rooms (o ∷ os) = room o + rooms os
