-- ===== src/Hostcb/Keys.antt =====
-- What the registry holds under each key, after each operation.
use gocudrv.Base.{ℕ, ◌≡◌, refl, Option, none, some, [], ◌∷◌, ◌==◌, if◌then◌else◌, arith}
use gocudrv.Hostcb.{
  Shard, find, delete, Registry, no_callbacks, shard_for, fresh_key, register, unregister, invoke,
}

module _ {F : Type 0} where
  -- The closure under a key.
  abbrev pub held : Registry F → ℕ → Option F
  held r k = find k (r.shards (shard_for k))

  find-delete :
      (k j : ℕ) (shard : Shard F)
      → find j (delete k shard) ≡ (if k == j then none else find j shard)
  unfolding find delete
  find-delete k j [] = ground arith
  find-delete k j ((i, f) ∷ rest) = let e = find-delete k j rest in ground arith

  pub held-unregister :
      (k j : ℕ) (r : Registry F) → held (unregister k r) j ≡ (if k == j then none else held r j)
  unfolding unregister
  held-unregister k j r = let e = find-delete k j (r.shards (shard_for k)) in ground arith

  pub held-register :
      (f : F) (j : ℕ) (r : Registry F)
      → held (register f r).1 j ≡ (if fresh_key r == j then some f else held r j)
  unfolding register find
  held-register f j r =
      let e = find-delete (fresh_key r) j (r.shards (shard_for (fresh_key r))) in ground arith

  pub invoke-lem :
      (k j : ℕ) (r : Registry F)
      → ((invoke k r).0 ≡ held r k)
        × (held (invoke k r).1 j ≡ (if k == j then none else held r j))
        × ((invoke k r).1.next_key ≡ r.next_key)
  unfolding invoke
  invoke-lem k j r =
      let e = held-unregister k j r in
      let f : (unregister k r).next_key ≡ r.next_key = unfold unregister in refl in ground arith

  pub held-no_callbacks : (k : ℕ) → held (no_callbacks {F = F}) k ≡ none
  unfolding find
  held-no_callbacks k = refl
