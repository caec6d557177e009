-- ===== src/CommandLine/Sizes.antt =====
-- src/command_line.c: what the arguments of the options come to.
use native.Mathlib.Nat.{mul-le-mul}
use pipefs.Common.{
  ap, ℕ, ◌+◌, ◌-◌, ◌*◌, ◌%◌, ◌^◌, ◌≤◌, ◌<◌, ◌≡◌, refl, true, false, some, List, [], ◌∷◌, ◌++◌,
  arith, ◌==◌, Bytes, All,
}
use pipefs.CommandLine.{
  is_digit, is_space, scan_digits, skip_spaces, scan_unsigned, is_unit, size, multiplier,
  parse_size,
}

-- The number that decimal digits stand for.
unfoldable pub value_of : ℕ → List ℕ → ℕ
value_of value [] = value
value_of value (d ∷ digits) = value_of (10 * value + d) digits

-- The text of decimal digits.
abbrev pub text_of : List ℕ → Bytes
text_of [] = []
text_of (d ∷ digits) = (48 + d) ∷ text_of digits

scan_digits-text_of :
    (digits : List ℕ) (value unit : ℕ)
    → All (λ d. d < 10) digits
    → is_digit unit ≡ false
    → scan_digits value (text_of digits ++ (unit ∷ [])) ≡ (value_of value digits, unit ∷ [])
unfolding scan_digits value_of
scan_digits-text_of [] value unit small other = rw other refl
scan_digits-text_of (d ∷ digits) value unit small other =
    let lt : d < 10 = small.0 in
    let is : is_digit (48 + d) ≡ true = ground arith in
    let back : 48 + d - 48 ≡ d = omega arith in
    rw (is, back) (scan_digits-text_of digits (10 * value + d) unit small.1 other)

scan_unsigned-text_of :
    (d : ℕ) (digits : List ℕ) (unit : ℕ)
    → All (λ d. d < 10) (d ∷ digits)
    → is_digit unit ≡ false
    → value_of 0 (d ∷ digits) < 2 ^ 32
    → scan_unsigned (text_of (d ∷ digits) ++ (unit ∷ []))
      ≡ some (value_of 0 (d ∷ digits), unit ∷ [])
unfolding scan_unsigned skip_spaces
scan_unsigned-text_of d digits unit small other fits =
    let lt : d < 10 = small.0 in
    let text = text_of (d ∷ digits) ++ (unit ∷ []) in
    let scanned = scan_digits-text_of (d ∷ digits) 0 unit small other in
    let no_space : is_space (48 + d) ≡ false = ground arith in
    let shown : skip_spaces text ≡ text = rw (no_space, skip_spaces) refl in
    let no_minus : (48 + d == 45) ≡ false = ground arith in
    let no_plus : (48 + d == 43) ≡ false = ground arith in
    let digit : is_digit (48 + d) ≡ true = ground arith in
    let whole : value_of 0 (d ∷ digits) % 2 ^ 32 ≡ value_of 0 (d ∷ digits) = omega arith in
    rw (shown, no_minus, no_plus, scan_unsigned) (rw (scanned, digit, whole) refl)

multiplier_small : (unit : ℕ) → multiplier unit ≤ 2 ^ 30
unfolding multiplier
multiplier_small unit = ground arith

product_fits : (a b : ℕ) → a < 2 ^ 32 → b ≤ 2 ^ 30 → a * b < 2 ^ 64
product_fits a b ha hb = let le : a ≤ 2 ^ 32 - 1 = omega arith in omega (arith, mul-le-mul le hb)

-- The units and what they stand for: bytes, and powers of 1024 for small letters and of 1000 for
-- capitals.
pub data IsUnit : ℕ → ℕ → Type 0 where
  b : IsUnit 98 1
  B : IsUnit 66 1
  k : IsUnit 107 1024
  K : IsUnit 75 1000
  m : IsUnit 109 (1024 * 1024)
  M : IsUnit 77 (1000 * 1000)
  g : IsUnit 103 (1024 * 1024 * 1024)
  G : IsUnit 71 (1000 * 1000 * 1000)

IsUnit-multiplier :
    {unit factor : ℕ} → IsUnit unit factor → (is_unit unit ≡ true) × (multiplier unit ≡ factor)
unfolding multiplier
IsUnit-multiplier b = (refl, refl)
IsUnit-multiplier B = (refl, refl)
IsUnit-multiplier k = (refl, refl)
IsUnit-multiplier K = (refl, refl)
IsUnit-multiplier m = (refl, refl)
IsUnit-multiplier M = (refl, refl)
IsUnit-multiplier g = (refl, refl)
IsUnit-multiplier G = (refl, refl)

-- A size that is written as one or more decimal digits and a unit is the number times what the
-- unit stands for, if the number fits 32 bits; the product is never cut off.
pub parse_size_lem :
    (d : ℕ) (digits : List ℕ) {unit factor : ℕ}
    → All (λ d. d < 10) (d ∷ digits)
    → IsUnit unit factor
    → value_of 0 (d ∷ digits) < 2 ^ 32
    → parse_size (text_of (d ∷ digits) ++ (unit ∷ [])) ≡ size (value_of 0 (d ∷ digits) * factor)
unfolding parse_size
parse_size_lem d digits {unit} {factor} small is_unit_ fits =
    let (known, stands) = IsUnit-multiplier is_unit_ in
    let other : is_digit unit ≡ false = ground arith in
    let scanned = scan_unsigned-text_of d digits unit small other fits in
    let whole : (value_of 0 (d ∷ digits) * multiplier unit) % 2 ^ 64
        ≡ value_of 0 (d ∷ digits) * multiplier unit =
      omega (
        arith,
        product_fits (value_of 0 (d ∷ digits)) (multiplier unit) fits (multiplier_small unit),
      ) in
    rw (scanned, parse_size)
      (rw (known, whole) (ap (λ n. size (value_of 0 (d ∷ digits) * n)) stands))
