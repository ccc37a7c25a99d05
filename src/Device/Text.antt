-- ===== src/Device/Text.antt =====
-- The text of a device's UUID: `fmt.Sprintf` of its 16 bytes as hexadecimal digits in groups.
pub mod Parse
use gocudrv.Base.{ℕ, ◌+◌, ◌/◌, ◌%◌, [], ◌∷◌, ◌++◌, ltb, if◌then◌else◌, Bytes, take, drop}

-- A digit below 16, and a byte as two digits.
abbrev pub hex_digit : ℕ → ℕ
hex_digit n = if ltb n 10 then n + 48 else n + 87

unfoldable pub hex : Bytes → Bytes
hex [] = []
hex (x ∷ xs) = hex_digit (x / 16) ∷ hex_digit (x % 16) ∷ hex xs

-- `%x-%x-%x-%x-%x` of the bytes, after `GPU-`
unfoldable pub groups : Bytes → Bytes
unfolding hex
groups raw =
    hex (take 4 raw)
    ++ 45
      ∷ (hex (take 2 (drop 4 raw))
          ++ 45
            ∷ (hex (take 2 (drop 6 raw))
                ++ 45 ∷ (hex (take 2 (drop 8 raw)) ++ 45 ∷ hex (take 6 (drop 10 raw)))))

unfoldable pub uuid_text : Bytes → Bytes
unfolding groups
uuid_text raw = 71 ∷ 80 ∷ 85 ∷ 45 ∷ groups raw
