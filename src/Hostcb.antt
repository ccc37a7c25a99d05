-- ===== src/Hostcb.antt =====
-- internal/hostcb/hostcb.go: the registry of Go closures that the driver calls back. Each operation is
-- one critical section of the shard of its key, and shards are independent, so a run of the process
-- is a sequence of operations. `F` is the type of the closures. The trampoline is made by purego.
pub mod Keys
pub mod Refinement
pub mod Once
mod Tests
use gocudrv.Base.{
  ℕ, suc, ◌+◌, ◌%◌, ◌≡◌, Bool, true, false, not, Option, none, some, List, [], ◌∷◌, ◌==◌,
  if◌then◌else◌, update,
}

abbrev pub registry_shard_count : ℕ
registry_shard_count = 32

-- `shardFor`
abbrev pub shard_for : ℕ → ℕ
shard_for key = key % registry_shard_count

-- A Go map, its entries in any order; `delete` and the write of a key leave one entry of a key at most.
abbrev pub Shard : Type 0 → Type 0
Shard F = List (ℕ × F)

module _ {F : Type 0} where
  unfoldable pub find : ℕ → Shard F → Option F
  find k [] = none
  find k ((j, f) ∷ rest) = let r = find k rest in if j == k then some f else r

  unfoldable pub delete : ℕ → Shard F → Shard F
  delete k [] = []
  delete k ((j, f) ∷ rest) = let r = delete k rest in if j == k then r else (j, f) ∷ r

  abbrev pub put : ℕ → F → Shard F → Shard F
  put k f shard = (k, f) ∷ delete k shard

-- `registry` and `nextKey`
pub record Registry (F : Type 0) : Type 0 where
  pub shards : ℕ → Shard F
  pub next_key : ℕ

module _ {F : Type 0} where
  abbrev pub no_callbacks : Registry F
  no_callbacks = record { shards = λ _. []; next_key = 0 }

  abbrev pub with_shard : ℕ → Shard F → Registry F → Registry F
  with_shard key shard r = record r { shards = update r.shards (shard_for key) shard }

  -- `nextKey.Add(1)`
  abbrev pub fresh_key : Registry F → ℕ
  fresh_key r = (r.next_key + 1) % 18446744073709551616

  -- `Register`: the key, and the registry.
  unfoldable pub register : F → Registry F → ℕ × Registry F
  unfolding delete
  register f r = (
    fresh_key r,
    with_shard (fresh_key r) (put (fresh_key r) f (r.shards (shard_for (fresh_key r))))
        (record r { next_key = fresh_key r }),
  )

  -- `Unregister`
  unfoldable pub unregister : ℕ → Registry F → Registry F
  unfolding delete
  unregister key r = with_shard key (delete key (r.shards (shard_for key))) r

  -- `Invoke`: the closure that is run, if any, and the registry before it runs. Its panic is swallowed.
  unfoldable pub invoke : ℕ → Registry F → Option F × Registry F
  unfolding find unregister
  invoke key r = elim (find key (r.shards (shard_for key))) [
    | none ↦ (none, r)
    | some f ↦ (some f, unregister key r)
  ]

  abbrev pub is_some : Option F → Bool
  is_some none = false
  is_some (some _) = true

  -- `Pending`
  unfoldable pub pending : ℕ → Registry F → Bool
  unfolding find
  pending key r = is_some (find key (r.shards (shard_for key)))
