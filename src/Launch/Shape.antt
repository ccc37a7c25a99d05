-- ===== src/Launch/Shape.antt =====
-- The shapes that `LaunchConfig1D` gives.
use gocudrv.Base.{
  ℕ, zero, suc, ◌+◌, ◌-◌, ◌*◌, ◌/◌, ◌≤◌, ◌<◌, ◌≡◌, ◌⊎◌, refl, sym, ◌∙◌, subst, Bool-cases, inl, inr,
  true, false, arith, ℤ, pos, negsuc, leb_ℤ, to_uint, ltb, if◌then◌else◌,
}
use native.Mathlib.Nat.{div-mul-le_self, lt-div-mul-add, mul-le-mul_right}
use gocudrv.Launch.Config.{
  LaunchConfig, max_uint32, no_config, blocks_for, launch_config_1d, line, valid,
}

-- The lengths and block sizes for which a one-dimensional grid exists.
abbrev pub Coverable : ℤ → ℤ → Type 0
Coverable n block =
    (leb_ℤ n (pos 0) ≡ false)
    × (leb_ℤ block (pos 0) ≡ false)
    × (to_uint block ≤ max_uint32)
    × (to_uint n ≤ max_uint32 * to_uint block)

positive_blocks : (q b n : ℕ) → 0 < n → n + b - 1 < q * b + b → 0 < b → 0 < q
positive_blocks zero b n h l k = absurd (omega arith)
positive_blocks (suc q) b n h l k = omega arith

few_blocks : (q b n : ℕ) → n ≤ q * b → q ≤ max_uint32 → n ≤ max_uint32 * b
few_blocks q b n h l = omega (arith, h, mul-le-mul_right b l)

many_blocks : (q b n : ℕ) → q * b < n + b → max_uint32 < q → max_uint32 * b < n
many_blocks q b n h l =
    let m : suc max_uint32 * b ≤ q * b = mul-le-mul_right b l in omega (arith, h, m)

module _ (n block : ℕ) where
  blocks_cover : 0 < n → 0 < block → n ≤ blocks_for n block * block
  blocks_cover h k =
      let l : n + block - 1 < (n + block - 1) / block * block + block = lt-div-mul-add k in
      omega (arith, l)

  blocks_fit : 0 < n → blocks_for n block * block < n + block
  blocks_fit h = omega (arith, div-mul-le_self (n + block - 1) block)

  blocks_some : 0 < n → 0 < block → 0 < blocks_for n block
  blocks_some h k = positive_blocks (blocks_for n block) block n h (lt-div-mul-add k) k

-- What a shape must be for its numbers: one-dimensional, and as long as it has to be.
abbrev pub Covers : ℤ → ℤ → LaunchConfig → Type 0
Covers n block cfg =
    (valid cfg ≡ true)
    × (cfg.block_x ≡ to_uint block)
    × (cfg.grid_y ≡ 1)
    × (cfg.grid_z ≡ 1)
    × (cfg.block_y ≡ 1)
    × (cfg.block_z ≡ 1)
    × (to_uint n ≤ cfg.grid_x * cfg.block_x)
    × (cfg.grid_x * cfg.block_x < to_uint n + cfg.block_x)

abbrev Outcome : ℤ → ℤ → LaunchConfig → Type 0
Outcome n block cfg =
    (Coverable n block × Covers n block cfg)
    ⊎ ((¬ Coverable n block) × (cfg ≡ no_config) × (valid cfg ≡ false))

refused :
    (n block : ℤ)
    → (¬ Coverable n block)
    → launch_config_1d n block ≡ no_config
    → Outcome n block (launch_config_1d n block)
refused n block h e = inr (h, e, rw e refl)

-- Two positive numbers whose quotient is `q`.
config_of :
    (n block q : ℕ)
    → 0 < n
    → 0 < block
    → block ≤ max_uint32
    → blocks_for n block ≡ q
    → 0 < q
    → launch_config_1d (pos n) (pos block) ≡ (if ltb max_uint32 q then no_config else line q block)
unfolding launch_config_1d
config_of n block q h k l e m = rw e (ground arith)

line-Covers :
    (n block q : ℕ)
    → 0 < q
    → 0 < block
    → n ≤ q * block
    → q * block < n + block
    → Covers (pos n) (pos block) (line q block)
line-Covers n block q h k lo hi = (ground arith, refl, refl, refl, refl, refl, lo, hi)

positive_case :
    (n block : ℕ)
    → 0 < n
    → 0 < block
    → block ≤ max_uint32
    → Outcome (pos n) (pos block) (launch_config_1d (pos n) (pos block))
positive_case n block h k l = elim (Bool-cases (ltb max_uint32 (blocks_for n block))) [
  | inl e ↦
      let many : max_uint32 * block < n =
        many_blocks (blocks_for n block) block n (blocks_fit n block h) (ground arith) in
      refused (pos n) (pos block) (λ f. omega (arith, many, f.3)) (shape ∙ rw e refl)
  | inr e ↦
      let few : n ≤ max_uint32 * block =
        few_blocks (blocks_for n block) block n (blocks_cover n block h k) (ground arith) in
      let is_line : launch_config_1d (pos n) (pos block) ≡ line (blocks_for n block) block =
        shape ∙ rw e refl in
      inl (
        (ground arith, ground arith, l, few),
        subst (Covers (pos n) (pos block)) (sym is_line) (
            line-Covers n block (blocks_for n block) (blocks_some n block h k) k
              (blocks_cover n block h k) (blocks_fit n block h)),
      )
]
  where
    shape : launch_config_1d (pos n) (pos block) ≡ (
        if ltb max_uint32 (blocks_for n block) then no_config else line (blocks_for n block) block)
    shape = config_of n block (blocks_for n block) h k l refl (blocks_some n block h k)

sizes :
    (n block : ℕ)
    → ((n ≡ 0) ⊎ (block ≡ 0) ⊎ (max_uint32 < block))
      ⊎ ((0 < n) × (0 < block) × (block ≤ max_uint32))
sizes n block = ground arith

-- `LaunchConfig1D` gives a valid shape exactly for a positive length and a positive block size whose
-- block size and number of blocks fit into 32 bits. The shape has one dimension, the others being 1, and the
-- given block size; it has a thread for each element, and would not have with one block less. Otherwise it is the empty
-- shape, which no launch accepts.
pub launch_config_1d_lem :
    (n block : ℤ)
    → (Coverable n block × Covers n block (launch_config_1d n block))
      ⊎ ((¬ Coverable n block)
          × (launch_config_1d n block ≡ no_config)
          × (valid (launch_config_1d n block) ≡ false))
unfolding launch_config_1d
launch_config_1d_lem (negsuc n) block = refused (negsuc n) block (λ h. ground arith) (ground arith)
launch_config_1d_lem (pos n) (negsuc block) =
    refused (pos n) (negsuc block) (λ h. ground arith) (ground arith)
launch_config_1d_lem (pos n) (pos block) = elim (sizes n block) [
  | inl h ↦ refused (pos n) (pos block) (λ f. ground arith) (ground arith)
  | inr (h, k, l) ↦ positive_case n block h k l
]
