-- ===== src/Device/Text/Parse.antt =====
-- The UUID text, read back.
use gocudrv.Base.{
  ℕ, zero, suc, ◌+◌, ◌*◌, ◌-◌, ◌/◌, ◌%◌, ◌<◌, ◌≤◌, ◌≡◌, ◌∙◌, ap, refl, sym, false, [], ◌∷◌, ◌++◌,
  ◌==◌, ltb, if◌then◌else◌, Bytes, arith, length, take, drop, append-nil, take-append-drop,
}
use gocudrv.Device.Text.{hex_digit, hex, groups}

-- The value of a hexadecimal digit in lower case.
abbrev pub digit_value : ℕ → ℕ
digit_value c = if ltb c 97 then c - 48 else c - 87

-- The bytes that pairs of digits stand for, where dashes are skipped.
unfoldable pub unhex : Bytes → Bytes
unhex [] = []
unhex (a ∷ []) = []
unhex (a ∷ b ∷ rest) =
    let short = unhex (b ∷ rest) in
    let long = unhex rest in if a == 45 then short else (digit_value a * 16 + digit_value b) ∷ long

-- Whether every number of a list is a byte.
unfoldable pub AllBytes : Bytes → Type 0
AllBytes [] = Unit {0}
AllBytes (x ∷ xs) = (x < 256) × AllBytes xs

digit_back : (n : ℕ) → n < 16 → digit_value (hex_digit n) ≡ n
digit_back n h = ground arith

no_dash : (n : ℕ) → (hex_digit n == 45) ≡ false
no_dash n = ground arith

unhex_pair :
    (a b : ℕ) (rest : Bytes)
    → (a == 45) ≡ false
    → unhex (a ∷ b ∷ rest) ≡ (digit_value a * 16 + digit_value b) ∷ unhex rest
unfolding unhex
unhex_pair a b rest e = rw e refl

unhex_dash : (rest : Bytes) → unhex (45 ∷ rest) ≡ unhex rest
unfolding unhex
unhex_dash [] = refl
unhex_dash (b ∷ rest) = refl

unhex-hex : (xs rest : Bytes) → AllBytes xs → unhex (hex xs ++ rest) ≡ xs ++ unhex rest
unfolding hex AllBytes
unhex-hex [] rest a = refl
unhex-hex (x ∷ xs) rest (h, a) =
    let p = digit_back (x / 16) (omega (arith, h)) in
    let q = digit_back (x % 16) (omega arith) in
    let e : digit_value (hex_digit (x / 16)) * 16 + digit_value (hex_digit (x % 16)) ≡ x =
      rw (p, q) (omega arith) in
    unhex_pair (hex_digit (x / 16)) (hex_digit (x % 16)) (hex xs ++ rest) (no_dash (x / 16))
    ∙ ap (λ z. z ∷ unhex (hex xs ++ rest)) e
    ∙ ap (λ z. x ∷ z) (unhex-hex xs rest a)

-- One group and the dash after it.
unhex_group : (xs rest : Bytes) → AllBytes xs → unhex (hex xs ++ 45 ∷ rest) ≡ xs ++ unhex rest
unhex_group xs rest a = unhex-hex xs (45 ∷ rest) a ∙ ap (λ z. xs ++ z) (unhex_dash rest)

unhex_last : (xs : Bytes) → AllBytes xs → unhex (hex xs) ≡ xs
unfolding unhex
unhex_last xs a = ap unhex (sym (append-nil (hex xs))) ∙ unhex-hex xs [] a ∙ append-nil xs

take-AllBytes : (n : ℕ) (xs : Bytes) → AllBytes xs → AllBytes (take n xs)
unfolding AllBytes
take-AllBytes zero xs a = tt
take-AllBytes (suc n) [] a = tt
take-AllBytes (suc n) (x ∷ xs) (h, a) = (h, take-AllBytes n xs a)

drop-AllBytes : (n : ℕ) (xs : Bytes) → AllBytes xs → AllBytes (drop n xs)
unfolding AllBytes
drop-AllBytes zero xs a = a
drop-AllBytes (suc n) [] a = tt
drop-AllBytes (suc n) (x ∷ xs) (h, a) = drop-AllBytes n xs a

drop_nil : (m : ℕ) → drop {A = ℕ} m [] ≡ []
drop_nil zero = refl
drop_nil (suc m) = refl

add_suc : (m n : ℕ) → suc (m + n) ≡ m + suc n
add_suc m n = omega arith

add_zero : (m : ℕ) → m + zero ≡ m
add_zero m = omega arith

length-drop : (n : ℕ) (xs : Bytes) → length (drop n xs) ≡ length xs - n
length-drop zero xs = omega arith
length-drop (suc n) [] = omega arith
length-drop (suc n) (x ∷ xs) = omega (arith, length-drop n xs)

drop-drop : (m n : ℕ) (xs : Bytes) → drop m (drop n xs) ≡ drop (m + n) xs
drop-drop m zero xs = ap (λ k. drop k xs) (sym (add_zero m))
drop-drop m (suc n) [] = drop_nil m ∙ sym (drop_nil (m + suc n))
drop-drop m (suc n) (x ∷ xs) = drop-drop m n xs ∙ ap (λ k. drop k (x ∷ xs)) (add_suc m n)

take_all : (n : ℕ) (xs : Bytes) → length xs ≤ n → take n xs ≡ xs
take_all zero [] h = refl
take_all zero (x ∷ xs) h = absurd (omega (arith, h))
take_all (suc n) [] h = refl
take_all (suc n) (x ∷ xs) h = ap (λ z. x ∷ z) (take_all n xs (omega (arith, h)))

-- A slice and the rest after it.
slice_rest : (m n : ℕ) (xs : Bytes) → take m (drop n xs) ++ drop (m + n) xs ≡ drop n xs
slice_rest m n xs =
    ap (λ z. take m (drop n xs) ++ z) (sym (drop-drop m n xs)) ∙ take-append-drop m (drop n xs)

rejoined :
    (raw : Bytes)
    → length raw ≡ 16
    → take 4 raw
        ++ (take 2 (drop 4 raw)
            ++ (take 2 (drop 6 raw) ++ (take 2 (drop 8 raw) ++ take 6 (drop 10 raw))))
      ≡ raw
rejoined raw l =
    ap (λ z. take 4 raw ++ z)
      (ap (λ z. take 2 (drop 4 raw) ++ z)
          (ap (λ z. take 2 (drop 6 raw) ++ z)
              (ap (λ z. take 2 (drop 8 raw) ++ z)
                  (take_all 6 (drop 10 raw) (omega (arith, length-drop 10 raw, l)))
                ∙ slice_rest 2 8 raw)
            ∙ slice_rest 2 6 raw)
        ∙ slice_rest 2 4 raw)
    ∙ take-append-drop 4 raw

-- The text of 16 bytes, as `UUID` prints a device's, less its prefix, reads back as those bytes: devices with different
-- UUIDs have different texts.
pub groups-unhex : (raw : Bytes) → AllBytes raw → length raw ≡ 16 → unhex (groups raw) ≡ raw
unfolding groups
groups-unhex raw a l =
    unhex_group (take 4 raw) _ (take-AllBytes 4 raw a)
    ∙ ap (λ z. take 4 raw ++ z)
        (unhex_group (take 2 (drop 4 raw)) _ (part 2 4)
          ∙ ap (λ z. take 2 (drop 4 raw) ++ z)
              (unhex_group (take 2 (drop 6 raw)) _ (part 2 6)
                ∙ ap (λ z. take 2 (drop 6 raw) ++ z)
                    (unhex_group (take 2 (drop 8 raw)) _ (part 2 8)
                      ∙ ap (λ z. take 2 (drop 8 raw) ++ z)
                          (unhex_last (take 6 (drop 10 raw)) (part 6 10)))))
    ∙ rejoined raw l
  where
    part : (m n : ℕ) → AllBytes (take m (drop n raw))
    part m n = take-AllBytes m (drop n raw) (drop-AllBytes n raw a)
