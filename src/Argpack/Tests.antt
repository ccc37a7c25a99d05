-- ===== src/Argpack/Tests.antt =====
-- Runs of the builder, and the theorems at them.
use gocudrv.Base.{ℕ, List, ◌≡◌, refl, some, none, [], ◌∷◌, arith, pos, Bytes, load, store}
use gocudrv.Argpack.{
  Builder, empty, index_out_of_range, type_mismatch, size_mismatch, add, align_up, meta, value,
  set_bytes, reset, tabulate, write, params, append_pointers, index_panic,
}
use gocudrv.Argpack.Invariant.{Inv, add-Inv, empty-Inv}
use gocudrv.Argpack.Params.{values}
use gocudrv.Argpack.Model.{
  Op, add_op, set_op, set_bytes_op, params_op, reset_op, result, reads, spec_answers, answers,
  AllProper,
}
use gocudrv.Argpack.Refinement.{packing_refines}
use gocudrv.Argpack.Packing.{Args, Reads, add_all, pack-Reads}

-- A pointer-sized argument of type 1, and a raw one of nine bytes, which spills.
abbrev small : Bytes
small = 1 ∷ 2 ∷ 3 ∷ 4 ∷ []

abbrev large : Bytes
large = 9 ∷ 8 ∷ 7 ∷ 6 ∷ 5 ∷ 4 ∷ 3 ∷ 2 ∷ 1 ∷ []

abbrev args : Args
args = (small, some 1) ∷ (large, none) ∷ []

abbrev one : Builder
one = add empty small (some 1)

one-Inv : Inv one
one-Inv = add-Inv empty small (some 1) (omega arith) empty-Inv

one-values : values one ≡ small ∷ []
unfolding add tabulate value meta load store
one-values = refl

abbrev changed : Bytes
changed = 7 ∷ 7 ∷ 7 ∷ 7 ∷ []

pack-Reads_example : Reads (add_all (reset one) args) args
pack-Reads_example =
    pack-Reads one args (λ e. cc) (omega arith, omega arith, (omega arith, omega arith, tt))
      (omega arith)

-- The second argument lies in the arena, and a write past the first update leaves it alone.
packed_bytes : values (add_all empty args) ≡ small ∷ large ∷ []
unfolding add_all add tabulate value meta load store align_up
packed_bytes = refl

updated_bytes : values (set_bytes (add_all empty args) (pos 0) changed).1 ≡ changed ∷ large ∷ []
unfolding add_all add tabulate value meta load store align_up set_bytes write
updated_bytes = refl

wrong_size : (set_bytes (add_all empty args) (pos 1) changed).0 ≡ some size_mismatch
unfolding add_all add meta align_up set_bytes
wrong_size = refl

-- Type 1 has four bytes. A set of the wrong type and one out of range, between two reads.
abbrev widths : ℕ → ℕ
widths t = 4

abbrev session : List Op
session =
    params_op
    ∷ add_op small (some 1)
    ∷ add_op large none
    ∷ params_op
    ∷ set_op (pos 1) 1 changed
    ∷ set_op (pos 0) 1 changed
    ∷ set_bytes_op (pos 2) changed
    ∷ params_op
    ∷ reset_op
    ∷ params_op
    ∷ []

session-spec_answers :
    spec_answers session []
    ≡ reads none
      ∷ result none
      ∷ result none
      ∷ reads (some (some small ∷ some large ∷ []))
      ∷ result (some type_mismatch)
      ∷ result none
      ∷ result (some index_out_of_range)
      ∷ reads (some (some changed ∷ some large ∷ []))
      ∷ result none
      ∷ reads none
      ∷ []
unfolding spec_answers
session-spec_answers = refl

session-AllProper : AllProper widths session
session-AllProper = (
  tt,
  (
    (omega arith, (omega arith, refl)),
    ((omega arith, omega arith), (tt, (refl, (refl, (tt, (tt, (tt, (tt, tt)))))))),
  ),
)

packing_refines_example : answers session empty ≡ spec_answers session []
packing_refines_example = packing_refines widths session session-AllProper (omega arith)

-- Sixteen arguments that take the slots, and then one of size zero: `Params` panics.
abbrev sixteen : Args
sixteen =
    (small, none)
    ∷ (small, none)
    ∷ (small, none)
    ∷ (small, none)
    ∷ (small, none)
    ∷ (small, none)
    ∷ (small, none)
    ∷ (small, none)
    ∷ (small, none)
    ∷ (small, none)
    ∷ (small, none)
    ∷ (small, none)
    ∷ (small, none)
    ∷ (small, none)
    ∷ (small, none)
    ∷ (small, none)
    ∷ []

zero_size_panics : (params (add (add_all empty sixteen) [] none)).0 ≡ index_panic
unfolding add_all add params append_pointers meta align_up
zero_size_panics = refl
