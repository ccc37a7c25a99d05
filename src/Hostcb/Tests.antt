-- ===== src/Hostcb/Tests.antt =====
-- Runs of the registry, and the theorems at them.
use gocudrv.Base.{◌≡◌, refl, none, some, List, [], ◌∷◌, ℕ, arith}
use gocudrv.Hostcb.{find, no_callbacks, register, unregister, invoke, delete}
use gocudrv.Hostcb.Keys.{held}
use gocudrv.Hostcb.Refinement.{
  Op, register_op, unregister_op, invoke_op, key, nothing, runs, answers, spec_answers, no_closures,
  registry_refines,
}
use gocudrv.Hostcb.Once.{history, no_history, times, runs_once}

-- Two closures, of which the first is run, and run again; the second is dropped before it runs.
abbrev calls : List (Op ℕ)
calls =
    register_op 70 ∷ register_op 80 ∷ invoke_op 1 ∷ invoke_op 1 ∷ unregister_op 2 ∷ invoke_op 2 ∷ []

answers-calls :
    answers calls no_callbacks
    ≡ key 1 ∷ key 2 ∷ runs (some 70) ∷ runs none ∷ nothing ∷ runs none ∷ []
unfolding answers register unregister invoke find delete
answers-calls = refl

registry_refines_example : answers calls no_callbacks ≡ spec_answers calls no_closures
registry_refines_example = registry_refines calls

calls_run : find 1 (history calls no_history).ran ≡ some 70
unfolding history register unregister invoke find delete
calls_run = refl

runs_once_example :
    (find 1 (history calls no_history).issued ≡ some 70)
    × (times 1 (history calls no_history).ran ≡ 1)
    × (times 1 (history calls no_history).issued ≡ 1)
    × (held (history calls no_history).registry 1 ≡ none)
runs_once_example = runs_once calls 1 70 (omega arith) calls_run
