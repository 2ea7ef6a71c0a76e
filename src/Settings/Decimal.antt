-- ===== src/Settings/Decimal.antt =====
-- The digits that `std::to_string` writes and `std::stoi` reads.
use cwusb.Base.{
  ℕ, zero, suc, ◌+◌, ◌*◌, ◌-◌, ◌/◌, ◌%◌, ◌^◌, ◌<◌, ◌≤◌, ◌≡◌, refl, ap, ◌∙◌, true, [], ◌∷◌, Bytes,
  ok, ltb, int_lt, Bool-cases, inl, inr, arith,
}
use cwusb.Settings.Numbers.{
  digits_before, decimal, to_string, digits_value, starts_with_digit, magnitude, positive, negative,
  stoi,
}

-- Powers of ten.
abbrev pow10 : ℕ → ℕ
pow10 zero = 1
pow10 (suc k) = 10 * pow10 k

digits_value-digit :
    (c : ℕ) (s : Bytes) (n : ℕ)
    → c < 10
    → digits_value ((48 + c) ∷ s) n ≡ digits_value s (n * 10 + c)
unfolding digits_value
digits_value-digit c s n small = ground arith

pub digits_before-small :
    (fuel n : ℕ) (text : Bytes) → n < 10 → digits_before (suc fuel) n text ≡ (48 + n) ∷ text
unfolding digits_before
digits_before-small fuel n text h = ground arith

pub digits_before-large :
    (fuel n : ℕ) (text : Bytes)
    → 10 ≤ n
    → digits_before (suc fuel) n text ≡ digits_before fuel (n / 10) ((48 + n % 10) ∷ text)
unfolding digits_before
digits_before-large fuel n text h = ground arith

pub digits_before-zero : (n : ℕ) (text : Bytes) → digits_before 0 n text ≡ text
unfolding digits_before
digits_before-zero n text = refl

digits_value-digits_before :
    (fuel n : ℕ) (text : Bytes)
    → n < pow10 fuel
    → digits_value (digits_before fuel n text) 0 ≡ digits_value text n
digits_value-digits_before zero n text h =
    ap (λ s. digits_value s 0) (digits_before-zero n text)
    ∙ ap (digits_value text) {x = 0} {y = n} (omega arith)
digits_value-digits_before (suc fuel) n text h = elim (Bool-cases (ltb n 10)) [
  | inl small ↦
      ap (λ s. digits_value s 0) (digits_before-small fuel n text (ground arith))
      ∙ digits_value-digit n text 0 (ground arith)
      ∙ ap (digits_value text) {x = 0 * 10 + n} {y = n} (omega arith)
  | inr large ↦
      ap (λ s. digits_value s 0) (digits_before-large fuel n text (ground arith))
      ∙ digits_value-digits_before fuel (n / 10) ((48 + n % 10) ∷ text) (omega arith)
      ∙ digits_value-digit (n % 10) text (n / 10) (omega arith)
      ∙ ap (digits_value text) {x = n / 10 * 10 + n % 10} {y = n} (omega arith)
]

starts_with_digit-digits_before :
    (fuel n : ℕ) (text : Bytes)
    → starts_with_digit text ≡ true
    → starts_with_digit (digits_before fuel n text) ≡ true
starts_with_digit-digits_before zero n text h = ap starts_with_digit (digits_before-zero n text) ∙ h
starts_with_digit-digits_before (suc fuel) n text h = elim (Bool-cases (ltb n 10)) [
  | inl small ↦ ap starts_with_digit (digits_before-small fuel n text (ground arith)) ∙ ground arith
  | inr large ↦
      ap starts_with_digit (digits_before-large fuel n text (ground arith))
      ∙ starts_with_digit-digits_before fuel (n / 10) ((48 + n % 10) ∷ text) (ground arith)
]

starts_with_digit-decimal : (n : ℕ) → starts_with_digit (decimal n) ≡ true
starts_with_digit-decimal n = elim (Bool-cases (ltb n 10)) [
  | inl small ↦ ap starts_with_digit (digits_before-small 9 n [] (ground arith)) ∙ ground arith
  | inr large ↦
      ap starts_with_digit (digits_before-large 9 n [] (ground arith))
      ∙ starts_with_digit-digits_before 9 (n / 10) ((48 + n % 10) ∷ []) (ground arith)
]

magnitude-decimal : (n : ℕ) → n < 2 ^ 32 → magnitude (decimal n) ≡ ok n
unfolding magnitude
magnitude-decimal n h =
    rw (starts_with_digit-decimal n, digits_value-digits_before 10 n [] (omega arith))
      (unfold digits_value in refl)

-- A text that starts with a digit has no sign and no space before it.
stoi-digits : (s : Bytes) → starts_with_digit s ≡ true → stoi s ≡ positive (magnitude s)
unfolding stoi
stoi-digits [] h = absurd (ground arith)
stoi-digits (c ∷ s) h = ground arith

stoi-minus : (s : Bytes) → stoi (b'-' ∷ s) ≡ negative (magnitude s)
unfolding stoi
stoi-minus s = refl

-- `std::stoi` reads what `std::to_string` has written of an `int`.
pub stoi-to_string : (w : ℕ) → w < 2 ^ 32 → stoi (to_string w) ≡ ok w
unfolding to_string
stoi-to_string w h = elim (Bool-cases (int_lt w 0)) [
  | inl below ↦ rw below (
      stoi-minus (decimal (2 ^ 32 - w))
      ∙ ap negative (magnitude-decimal (2 ^ 32 - w) (ground arith))
      ∙ ground arith)
  | inr above ↦ rw above (
      stoi-digits (decimal w) (starts_with_digit-decimal w)
      ∙ ap positive (magnitude-decimal w h)
      ∙ ground arith)
]
