-- ===== src/Hostcb/Once.antt =====
-- How often a closure is run.
use gocudrv.Base.{
  ℕ, ◌+◌, ◌≤◌, ◌<◌, ◌≡◌, refl, Option, none, some, List, [], ◌∷◌, ◌==◌, leb, if◌then◌else◌, arith,
  length,
}
use gocudrv.Hostcb.{Shard, Registry, no_callbacks, find, fresh_key, register, unregister, invoke}
use gocudrv.Hostcb.Keys.{held, held-register, held-unregister, held-no_callbacks, invoke-lem}
use gocudrv.Hostcb.Refinement.{Op, register_op, unregister_op, invoke_op}

-- A registry with its history: the closures by the keys they were given, and those that were run by
-- the key that was invoked, the latest first.
pub record History (F : Type 0) : Type 0 where
  pub registry : Registry F
  pub issued : Shard F
  pub ran : Shard F

module _ {F : Type 0} where
  abbrev pub no_history : History F
  no_history = record { registry = no_callbacks; issued = []; ran = [] }

  abbrev pub note : ℕ → Option F → Shard F → Shard F
  note k none log = log
  note k (some f) log = (k, f) ∷ log

  abbrev pub history_step : Op F → History F → History F
  history_step (register_op f) h =
      let (k, r) = register f h.registry in record h { registry = r; issued = (k, f) ∷ h.issued }
  history_step (unregister_op k) h = record h { registry = unregister k h.registry }
  history_step (invoke_op k) h =
      let (f, r) = invoke k h.registry in record h { registry = r; ran = note k f h.ran }

  unfoldable pub history : List (Op F) → History F → History F
  history [] h = h
  history (o ∷ os) h = history os (history_step o h)

  abbrev pub times : ℕ → Shard F → ℕ
  times k [] = 0
  times k ((j, f) ∷ rest) = (if j == k then 1 else 0) + times k rest

  -- The closures under a key agree, where there are both.
  abbrev Agree : Option F → Option F → Type 0
  Agree none o = Unit {0}
  Agree (some f) o = o ≡ some f

  abbrev one_if : Option F → ℕ
  one_if none = 0
  one_if (some _) = 1

  record Inv (k : ℕ) (h : History F) : Type 0 where
    numbered : h.registry.next_key ≡ length h.issued
    fresh : times k h.issued ≤ (if leb k h.registry.next_key then 1 else 0)
    total : times k h.ran + one_if (held h.registry k) ≤ times k h.issued
    own : Agree (held h.registry k) (find k h.issued)
    ran_own : Agree (find k h.ran) (find k h.issued)

  times-find : (k : ℕ) (log : Shard F) (f : F) → find k log ≡ some f → 0 < times k log
  unfolding find
  times-find k [] f e = ground arith
  times-find k ((j, g) ∷ rest) f e = let ih = times-find k rest f in ground arith

  find-none : (k : ℕ) (log : Shard F) → times k log ≡ 0 → find k log ≡ none
  unfolding find
  find-none k [] e = refl
  find-none k ((j, g) ∷ rest) e = let ih = find-none k rest in ground arith

  empty_Inv : (k : ℕ) → Inv k no_history
  unfolding find
  empty_Inv k =
      let a : held (no_callbacks {F = F}) k ≡ none = held-no_callbacks k in
      record {
        numbered = refl;
        fresh = ground arith;
        total = ground arith;
        own = ground arith;
        ran_own = tt;
      }

  register-Inv :
      (k : ℕ) (f : F) (h : History F)
      → length h.issued + 1 < 18446744073709551616
      → Inv k h
      → Inv k (history_step (register_op f) h)
  unfolding find
  register-Inv k f h l v =
      let b : (register f h.registry).0 ≡ fresh_key h.registry = unfold register in refl in
      let c : (register f h.registry).1.next_key ≡ fresh_key h.registry = unfold register in refl in
      let a = held-register f k h.registry in
      let p = v.numbered in
      let q = v.fresh in
      let r = v.total in
      let s = v.own in
      let t = v.ran_own in
      let u = find-none k h.ran in
      record {
        numbered = ground arith;
        fresh = ground arith;
        total = ground arith;
        own = ground arith;
        ran_own = ground arith;
      }

  unregister-Inv : (k j : ℕ) (h : History F) → Inv k h → Inv k (history_step (unregister_op j) h)
  unregister-Inv k j h v =
      let c : (unregister j h.registry).next_key ≡ h.registry.next_key =
        unfold unregister in refl in
      let a = held-unregister j k h.registry in
      let r = v.total in
      let s = v.own in
      record {
        numbered = ground (arith, v.numbered);
        fresh = ground (arith, v.fresh);
        total = ground arith;
        own = ground arith;
        ran_own = v.ran_own;
      }

  invoke-Inv : (k j : ℕ) (h : History F) → Inv k h → Inv k (history_step (invoke_op j) h)
  unfolding find
  invoke-Inv k j h v =
      let (a, _, _) = invoke-lem j j h.registry in
      let (_, b, c) = invoke-lem j k h.registry in
      let p = v.numbered in
      let q = v.fresh in
      let r = v.total in
      let s = v.own in
      let t = v.ran_own in
      record {
        numbered = ground arith;
        fresh = ground arith;
        total = ground arith;
        own = ground arith;
        ran_own = ground arith;
      }

  history-Inv :
      (k : ℕ) (os : List (Op F)) (h : History F)
      → length h.issued + length os < 18446744073709551616
      → Inv k h
      → Inv k (history os h)
  unfolding history
  history-Inv k [] h l v = v
  history-Inv k (register_op f ∷ os) h l v =
      history-Inv k os (history_step (register_op f) h) (omega arith)
        (register-Inv k f h (omega arith) v)
  history-Inv k (unregister_op j ∷ os) h l v =
      history-Inv k os (history_step (unregister_op j) h) (omega arith) (unregister-Inv k j h v)
  history-Inv k (invoke_op j ∷ os) h l v =
      history-Inv k os (history_step (invoke_op j) h) (omega arith) (invoke-Inv k j h v)

  -- After fewer than 2^64 operations in any order, a closure that was run by the key `k` is the one that
  -- was registered with that key, it was run exactly once, the key was given out exactly once, and
  -- it is not registered any more.
  pub runs_once :
      (os : List (Op F)) (k : ℕ) (f : F)
      → length os < 18446744073709551616
      → find k (history os no_history).ran ≡ some f
      → (find k (history os no_history).issued ≡ some f)
        × (times k (history os no_history).ran ≡ 1)
        × (times k (history os no_history).issued ≡ 1)
        × (held (history os no_history).registry k ≡ none)
  runs_once os k f l e =
      let h = history os no_history in
      let v : Inv k h = history-Inv k os no_history (omega (arith, l)) (empty_Inv k) in
      let n = times-find k h.ran f e in
      let q = v.fresh in let r = v.total in let t = v.ran_own in ground arith
