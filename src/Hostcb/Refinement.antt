-- ===== src/Hostcb/Refinement.antt =====
-- The sharded registry against one map from keys to closures.
use gocudrv.Base.{ℕ, ◌+◌, ◌%◌, ◌≡◌, refl, Option, none, some, List, [], ◌∷◌, update, arith}
use gocudrv.Hostcb.{Registry, no_callbacks, fresh_key, register, unregister, invoke}
use gocudrv.Hostcb.Keys.{held, held-register, held-unregister, held-no_callbacks, invoke-lem}

-- The operations of the package, and what they return: a key, nothing, or the closure that is run.
pub data Op (F : Type 0) : Type 0 where
  register_op : F → Op F
  unregister_op : ℕ → Op F
  invoke_op : ℕ → Op F

pub data Answer (F : Type 0) : Type 0 where
  key : ℕ → Answer F
  nothing : Answer F
  runs : Option F → Answer F

-- The specification: one map, where invoking a key takes it out.
pub record Spec (F : Type 0) : Type 0 where
  pub closures : ℕ → Option F
  pub last_key : ℕ

module _ {F : Type 0} where
  abbrev pub no_closures : Spec F
  no_closures = record { closures = λ _. none; last_key = 0 }

  abbrev next : Spec F → ℕ
  next m = (m.last_key + 1) % 18446744073709551616

  abbrev pub spec_step : Op F → Spec F → Answer F × Spec F
  spec_step (register_op f) m =
      (key (next m), record { closures = update m.closures (next m) (some f); last_key = next m })
  spec_step (unregister_op k) m = (nothing, record m { closures = update m.closures k none })
  spec_step (invoke_op k) m =
      (runs (m.closures k), record m { closures = update m.closures k none })

  abbrev pub op_step : Op F → Registry F → Answer F × Registry F
  op_step (register_op f) r = let (k, r') = register f r in (key k, r')
  op_step (unregister_op k) r = (nothing, unregister k r)
  op_step (invoke_op k) r = let (f, r') = invoke k r in (runs f, r')

  unfoldable pub spec_answers : List (Op F) → Spec F → List (Answer F)
  spec_answers [] m = []
  spec_answers (o ∷ os) m = (spec_step o m).0 ∷ spec_answers os (spec_step o m).1

  unfoldable pub answers : List (Op F) → Registry F → List (Answer F)
  answers [] r = []
  answers (o ∷ os) r = (op_step o r).0 ∷ answers os (op_step o r).1

  -- What a registry looks like from outside.
  abbrev pub View : Registry F → Spec F → Type 0
  View r m = ((k : ℕ) → held r k ≡ m.closures k) × (r.next_key ≡ m.last_key)

  op_step-View :
      (o : Op F) (r : Registry F) (m : Spec F)
      → View r m
      → ((op_step o r).0 ≡ (spec_step o m).0) × View (op_step o r).1 (spec_step o m).1
  op_step-View (register_op f) r m (v, e) =
      let a : fresh_key r ≡ next m = ground arith in
      let b : (register f r).0 ≡ fresh_key r = unfold register in refl in
      let c : (register f r).1.next_key ≡ fresh_key r = unfold register in refl in
      (
        ground arith,
        (λ k. (let h = held-register f k r in let u = v k in ground arith), ground arith),
      )
  op_step-View (unregister_op k) r m (v, e) =
      let c : (unregister k r).next_key ≡ r.next_key = unfold unregister in refl in
      (refl, (λ j. (let h = held-unregister k j r in let u = v j in ground arith), ground arith))
  op_step-View (invoke_op k) r m (v, e) =
      let h = invoke-lem k k r in
      let u = v k in
      (ground arith, (λ j. (let i = invoke-lem k j r in let w = v j in ground arith), ground arith))

  answers-View :
      (os : List (Op F)) (r : Registry F) (m : Spec F) → View r m → answers os r ≡ spec_answers os m
  unfolding answers spec_answers
  answers-View [] r m v = refl
  answers-View (o ∷ os) r m v =
      let (e, w) = op_step-View o r m v in
      let ih = answers-View os (op_step o r).1 (spec_step o m).1 w in cc

  -- Any sequence of operations on the registry with its shards gives the same keys and runs the same
  -- closures as on one map in which registering adds a key and invoking takes it out.
  pub registry_refines : (os : List (Op F)) → answers os no_callbacks ≡ spec_answers os no_closures
  registry_refines os = answers-View os no_callbacks no_closures (held-no_callbacks, refl)
