-- ===== src/Launch/Config.antt =====
-- cuda/launch.go: the shape of a launch.
use gocudrv.Base.{
  ℕ, ◌+◌, ◌-◌, ◌/◌, Bool, ◌&&◌, ◌||◌, ◌==◌, ltb, if◌then◌else◌, ℤ, pos, leb_ℤ, to_uint,
}

-- `LaunchConfig`
pub record LaunchConfig : Type 0 where
  pub grid_x : ℕ
  pub grid_y : ℕ
  pub grid_z : ℕ
  pub block_x : ℕ
  pub block_y : ℕ
  pub block_z : ℕ
  pub shared_mem_bytes : ℕ

-- `LaunchConfig{}`
abbrev pub no_config : LaunchConfig
no_config = record {
  grid_x = 0;
  grid_y = 0;
  grid_z = 0;
  block_x = 0;
  block_y = 0;
  block_z = 0;
  shared_mem_bytes = 0;
}

abbrev pub max_uint32 : ℕ
max_uint32 = 4294967295

abbrev pub line : ℕ → ℕ → LaunchConfig
line grid block = record {
  grid_x = grid;
  grid_y = 1;
  grid_z = 1;
  block_x = block;
  block_y = 1;
  block_z = 1;
  shared_mem_bytes = 0;
}

-- `(n + blockSize - 1) / blockSize`; below 2^63 + 2^32, so the sum does not wrap.
abbrev pub blocks_for : ℕ → ℕ → ℕ
blocks_for n block = (n + block - 1) / block

-- `LaunchConfig1D`
unfoldable pub launch_config_1d : ℤ → ℤ → LaunchConfig
launch_config_1d n block =
    if leb_ℤ n (pos 0) || (leb_ℤ block (pos 0) || ltb max_uint32 (to_uint block))
    then no_config
    else if blocks_for (to_uint n) (to_uint block) == 0
        || ltb max_uint32 (blocks_for (to_uint n) (to_uint block))
    then no_config
    else line (blocks_for (to_uint n) (to_uint block)) (to_uint block)

-- `valid`
abbrev pub valid : LaunchConfig → Bool
valid cfg =
    ltb 0 cfg.grid_x
    && (ltb 0 cfg.grid_y
        && (ltb 0 cfg.grid_z && (ltb 0 cfg.block_x && (ltb 0 cfg.block_y && ltb 0 cfg.block_z))))
