-- ===== src/Argpack/Refinement.antt =====
-- The builder against a list of byte strings with their types, over sequences of operations.
mod Each
mod Steps
use gocudrv.Base.{
  ℕ, zero, suc, ◌+◌, ◌<◌, ◌≤◌, ◌≡◌, ◌∙◌, refl, sym, ap, subst, inl, inr, Bool, true, false,
  Bool-cases, Option, none, some, List, [], ◌∷◌, ◌++◌, map, length, get_elem?, set as list_set,
  arith, Bytes, ℤ, pos, negsuc, to_uint, ltb, ◌==◌, if◌then◌else◌,
}
use gocudrv.Argpack.{
  Builder, PackError, index_out_of_range, type_mismatch, size_mismatch, empty, set, set_bytes,
  params, meta, value, write, tabulate, same_type,
}
use gocudrv.Argpack.Layout.{size_of}
use gocudrv.Argpack.Invariant.{Inv, Fits, add-Inv, empty-Inv}
use gocudrv.Argpack.Params.{
  params_shape, sizes, params_read, params-Inv, values, length-tabulate, get_elem?-tabulate,
}
use gocudrv.Argpack.Writes.{write-Inv}
use gocudrv.Argpack.Updates.{reset_lem}
use gocudrv.Argpack.Packing.{spill_len-add, spill_len-reset, length-value, map-tabulate}
use gocudrv.Argpack.Entries.{
  Arg, typ_of, entry, entries, entries-add, entries-write, entries-reset, entries-params,
}
use gocudrv.Argpack.Model.{
  Op, add_op, set_op, set_bytes_op, params_op, reset_op, Answer, result, reads, Spec, spec_at,
  replace, read_spec, spec_step, found, op_step, spec_answers, answers, Sized, Proper, AllProper,
  room, rooms,
}
use gocudrv.Argpack.Refinement.Steps.{View, step-Matches}

spill_len-write :
    (b : Builder) (n : ℕ) (xs : Bytes) → (write b (meta b n) n xs).spill_len ≡ b.spill_len
unfolding write
spill_len-write b n xs = ground arith

spill_len-op_step : (o : Op) (b : Builder) → (op_step o b).1.spill_len ≤ b.spill_len + room o
spill_len-op_step (add_op xs t) b = omega (arith, spill_len-add b xs t)
spill_len-op_step (set_op i t xs) b =
    let e = spill_len-write b (to_uint i) xs in unfold set in ground arith
spill_len-op_step (set_bytes_op i xs) b =
    let e = spill_len-write b (to_uint i) xs in unfold set_bytes in ground arith
spill_len-op_step params_op b =
    let (ps, q, e) = params_shape b in omega (arith, ap (λ c. c.spill_len) e)
spill_len-op_step reset_op b = omega (arith, spill_len-reset b)

answers_match :
    (width : ℕ → ℕ) (os : List Op) (b : Builder) (m : Spec)
    → View width b m
    → AllProper width os
    → b.spill_len + rooms os < 2147483648
    → answers os b ≡ spec_answers os m
unfolding answers spec_answers
answers_match width [] b m v p f = refl
answers_match width (o ∷ os) b m v p f =
    let (e, w) = step-Matches width b m v o p.0 (omega (arith, f)) in
    let l = spill_len-op_step o b in
    let ih = answers_match width os (op_step o b).1 (spec_step o m).1 w p.1 (omega (arith, f, l)) in
    cc (e, ih)

-- Any sequence of `Add`, `AddBytes`, `Set`, `SetBytes`, `Params` and `Reset` on a new builder gives the same
-- errors as on a list of byte strings with their types, and after each `Params` a reader of the
-- arguments' sizes finds through the pointers exactly the bytes of that list, in order; and `Params` never
-- panics; provided that the values of a type all have the size that `width` gives it, that each added
-- argument has at least one byte and is below 2^16 bytes, and that all of them together stay below the arena's limit of 2^31, alignment included.
pub packing_refines :
    (width : ℕ → ℕ) (os : List Op)
    → AllProper width os
    → rooms os < 2147483648
    → answers os empty ≡ spec_answers os []
packing_refines width os p f =
    answers_match width os empty []
      (record { inv = empty-Inv; same = unfold tabulate in refl; each = tt }) p (omega (arith, f))
