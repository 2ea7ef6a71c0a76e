-- ===== src/NetConversion/Digits.antt =====
-- Hexadecimal digits and the number that they spell.
use cwusb.Base.{
  ℕ, zero, suc, ◌+◌, ◌-◌, ◌*◌, ◌/◌, ◌%◌, ◌^◌, ◌<◌, ◌≡◌, refl, ap, ap₂, ◌∙◌, ltb→lt, lt→ltb, true,
  false, inl, inr, [], ◌∷◌, ◌++◌, Bytes, length, replicate, ltb, ◌==◌, if◌then◌else◌, Bool-cases,
  arith,
}
use cwusb.NetConversion.{hex_digit, hex_digits, set_width, hex}

abbrev pub digit_value : ℕ → ℕ
digit_value c = if ltb c 58 then c - 48 else c - 87

-- The number of digits behind those that spell `v`.
abbrev pub spelled : ℕ → Bytes → ℕ
spelled v [] = v
spelled v (c ∷ cs) = spelled (v * 16 + digit_value c) cs

-- No digit is the space that ends a number.
abbrev pub NoSpace : Bytes → Type 0
NoSpace [] = Unit {0}
NoSpace (c ∷ cs) = (c == 32 ≡ false) × NoSpace cs

pub digit_value-hex_digit : (n : ℕ) → n < 16 → digit_value (hex_digit n) ≡ n
digit_value-hex_digit n h = ground arith

hex_digit-ne-space : (n : ℕ) → hex_digit n == 32 ≡ false
hex_digit-ne-space n = ground arith

NoSpace-append : (xs ys : Bytes) → NoSpace xs → NoSpace ys → NoSpace (xs ++ ys)
NoSpace-append [] ys p q = q
NoSpace-append (x ∷ xs) ys (p, ps) q = (p, NoSpace-append xs ys ps q)

spelled-append : (v : ℕ) (xs ys : Bytes) → spelled v (xs ++ ys) ≡ spelled (spelled v xs) ys
spelled-append v [] ys = refl
spelled-append v (x ∷ xs) ys = spelled-append (v * 16 + digit_value x) xs ys

NoSpace-zeros : (n : ℕ) → NoSpace (replicate n 48)
NoSpace-zeros zero = tt
NoSpace-zeros (suc n) = (refl, NoSpace-zeros n)

spelled-zeros : (n : ℕ) → spelled 0 (replicate n 48) ≡ 0
spelled-zeros zero = refl
spelled-zeros (suc n) = spelled-zeros n

-- The first number that does not have `k` digits.
abbrev bound : ℕ → ℕ
bound zero = 1
bound (suc k) = bound k * 16

hex_digits_one : (k n : ℕ) → ltb n 16 ≡ true → hex_digits (suc k) n ≡ hex_digit (n % 16) ∷ []
unfolding hex_digits
hex_digits_one k n small = rw small

hex_digits_more :
    (k n : ℕ)
    → ltb n 16 ≡ false
    → hex_digits (suc k) n ≡ hex_digits k (n / 16) ++ (hex_digit (n % 16) ∷ [])
unfolding hex_digits
hex_digits_more k n big = rw big

spelled-hex_digits : (k n : ℕ) → n < bound k → spelled 0 (hex_digits k n) ≡ n
unfolding hex_digits
spelled-hex_digits zero n h = omega arith
spelled-hex_digits (suc k) n h = elim (Bool-cases (ltb n 16)) [
  | inl small ↦
      ap (spelled 0) (hex_digits_one k n small)
      ∙ omega (arith, digit_value-hex_digit (n % 16) (omega arith), ltb→lt n 16 small)
  | inr big ↦
      ap (spelled 0) (hex_digits_more k n big)
      ∙ spelled-append 0 (hex_digits k (n / 16)) (hex_digit (n % 16) ∷ [])
      ∙ omega (
        arith,
        spelled-hex_digits k (n / 16) (omega arith),
        digit_value-hex_digit (n % 16) (omega arith),
      )
]

NoSpace-hex_digits : (k n : ℕ) → NoSpace (hex_digits k n)
unfolding hex_digits
NoSpace-hex_digits zero n = tt
NoSpace-hex_digits (suc k) n = elim (Bool-cases (ltb n 16)) [
  | inl small ↦ rw small (hex_digit-ne-space (n % 16), tt)
  | inr big ↦ rw big (
      NoSpace-append (hex_digits k (n / 16)) (hex_digit (n % 16) ∷ [])
        (NoSpace-hex_digits k (n / 16)) (hex_digit-ne-space (n % 16), tt))
]

pub NoSpace-hex : (width n : ℕ) → NoSpace (hex width n)
unfolding hex
NoSpace-hex width n =
    NoSpace-append (replicate (width - length (hex_digits 8 n)) 48) (hex_digits 8 n)
      (NoSpace-zeros (width - length (hex_digits 8 n))) (NoSpace-hex_digits 8 n)

pub spelled-hex : (width n : ℕ) → n < 2 ^ 32 → spelled 0 (hex width n) ≡ n
unfolding hex
spelled-hex width n h =
    let pad = width - length (hex_digits 8 n) in
    spelled-append 0 (replicate pad 48) (hex_digits 8 n)
    ∙ ap (λ v. spelled v (hex_digits 8 n)) (spelled-zeros pad)
    ∙ spelled-hex_digits 8 n (omega arith)

-- A byte has two digits.
pub hex-byte : (b : ℕ) → b < 256 → hex 2 b ≡ hex_digit (b / 16) ∷ hex_digit (b % 16) ∷ []
unfolding hex
hex-byte b h = elim (Bool-cases (ltb b 16)) [
  | inl small ↦
      ap (set_width 2) (hex_digits_one 7 b small)
      ∙ ap₂ (λ x y. hex_digit x ∷ hex_digit y ∷ []) {x = 0} {y = b / 16}
          (omega (arith, ltb→lt b 16 small)) refl
  | inr big ↦
      ap (set_width 2) (
        hex_digits_more 7 b big
        ∙ ap (λ ds. ds ++ (hex_digit (b % 16) ∷ []))
            (hex_digits_one 6 (b / 16) (lt→ltb (b / 16) 16 (omega arith))))
      ∙ ap (λ x. hex_digit x ∷ hex_digit (b % 16) ∷ []) {x = b / 16 % 16} {y = b / 16} (omega arith)
]
