-- ===== src/Launch/Occupancy/Suggested.antt =====
-- The shape that `SuggestedConfig1D` returns.
use gocudrv.Base.{
  ◌≡◌, ◌%◌, refl, ap, Bool, true, false, Option, arith, ℤ, pos, leb_ℤ, to_uint, inl, inr, ℕ,
}
use gocudrv.Driver.Errors.{Sentinel, invalid_launch_config, Result, ok, err}
use gocudrv.Driver.{Driver}
use gocudrv.Context.State.{Store, M, ◌>>=◌, ◌>>◌}
use gocudrv.Buffer.{reject_if}
use gocudrv.Module.{Module, Function}
use gocudrv.Launch.Config.{LaunchConfig, launch_config_1d, valid}
use gocudrv.Launch.Shape.{Covers, launch_config_1d_lem}
use gocudrv.Launch.Occupancy.{suggested_block_size, config_for, suggested_config_1d}

-- A method that returns a result passed its check.
passed :
    {W A : Type 0} (b : Bool) (x : Sentinel) (m : M W A) (s s' : Store W) (a : A)
    → (reject_if b x >> m) s ≡ (ok a, s')
    → (b ≡ false) × (m s ≡ (ok a, s'))
passed true x m s s' a e = absurd cc
passed false x m s s' a e = (refl, e)

module _ (modules : ℕ → Module) {W : Type 0} (d : Driver W) where
  config_for_made :
      (n smem block : ℤ) (cfg : LaunchConfig) (s s' : Store W)
      → config_for modules d n smem block s ≡ (ok cfg, s')
      → (valid (launch_config_1d n block) ≡ true)
        × (cfg ≡ record (launch_config_1d n block) { shared_mem_bytes = to_uint smem % 4294967296 })
        × (s ≡ s')
  unfolding config_for
  config_for_made n smem block cfg s s' e = ground arith

  config_for_lem :
      (n smem block : ℤ) (cfg : LaunchConfig) (s s' : Store W)
      → config_for modules d n smem block s ≡ (ok cfg, s')
      → Covers n block cfg × (cfg.shared_mem_bytes ≡ to_uint smem % 4294967296) × (s ≡ s')
  config_for_lem n smem block cfg s s' e =
      let (v, same, kept) = config_for_made n smem block cfg s s' e in
      elim (launch_config_1d_lem n block) [
        | inl (_, c) ↦ rw same (c, refl, kept)
        | inr (_, _, bad) ↦ absurd cc
      ]

  -- The rest of `SuggestedConfig1D` on what `SuggestedBlockSize` returns.
  suggested_rest :
      (n smem : ℤ) (cfg : LaunchConfig) (s' : Store W) (r : Result (ℤ × ℤ) × Store W)
      → ◌≡◌ {A = Result LaunchConfig × Store W}
          (elim r.0 [ ok z ↦ config_for modules d n smem z.1 r.1 | err x ↦ (err x, r.1) ])
          (ok cfg, s')
      → (grid : ℤ) × (block : ℤ) × (r ≡ (ok (grid, block), s'))
        × Covers n block cfg
        × (cfg.shared_mem_bytes ≡ to_uint smem % 4294967296)
  suggested_rest n smem cfg s' (ok (grid, block), s) e =
      let (c, shared, kept) = config_for_lem n smem block cfg s s' e in
      (grid, block, ap (λ x. (ok (grid, block), x)) kept, c, shared)
  suggested_rest n smem cfg s' (err x, s) e = absurd cc

  -- If `SuggestedConfig1D` returns a shape, then the driver suggested the block size of that shape, under no limit,
  -- and the shape is valid, has one dimension, the others being 1, has at least the asked number of threads and less than a block more, and gives
  -- each block the low 32 bits of the asked shared memory.
  pub suggested_config_1d-Covers :
      (fn : Option Function) (n smem : ℤ) (cfg : LaunchConfig) (s s' : Store W)
      → suggested_config_1d modules d fn n smem s ≡ (ok cfg, s')
      → (grid : ℤ) × (block : ℤ) × (suggested_block_size modules d fn smem (pos 0) s
          ≡ (ok (grid, block), s'))
        × Covers n block cfg
        × (cfg.shared_mem_bytes ≡ to_uint smem % 4294967296)
  unfolding suggested_config_1d
  suggested_config_1d-Covers fn n smem cfg s s' e =
      let (_, rest) =
        passed (leb_ℤ n (pos 0)) invalid_launch_config
          (suggested_block_size modules d fn smem (pos 0) >>= λ z. config_for modules d n smem z.1)
          s s' cfg e in
      suggested_rest n smem cfg s' (suggested_block_size modules d fn smem (pos 0) s) rest
