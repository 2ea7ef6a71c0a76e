-- ===== src/Settings/Numbers.antt =====
-- `std::to_string` and `std::stoi` of an `int`, a pattern of 32 bits.
use cwusb.Base.{
  ℕ, zero, suc, ◌+◌, ◌*◌, ◌-◌, ◌/◌, ◌%◌, ◌^◌, Bool, true, false, ◌&&◌, ◌||◌, [], ◌∷◌, Bytes, Result,
  ok, err, out_of_range, invalid_argument, ltb, leb, int_lt, sub32, ◌==◌, if◌then◌else◌,
}

-- The digits of a number, at most as many as there is fuel, before a text.
unfoldable pub digits_before : ℕ → ℕ → Bytes → Bytes
digits_before zero n text = text
digits_before (suc fuel) n text = elim (ltb n 10) [
  | true ↦ (48 + n) ∷ text
  | false ↦ digits_before fuel (n / 10) ((48 + n % 10) ∷ text)
]

-- Ten digits are enough for 32 bits.
abbrev pub decimal : ℕ → Bytes
decimal n = digits_before 10 n []

unfoldable pub to_string : ℕ → Bytes
to_string w = if int_lt w 0 then b'-' ∷ decimal (2 ^ 32 - w) else decimal w

-- `isspace`
abbrev pub is_space : ℕ → Bool
is_space c = c == 32 || leb 9 c && leb c 13

abbrev pub is_digit : ℕ → Bool
is_digit c = leb 48 c && leb c 57

abbrev pub skip_space : Bytes → Bytes
skip_space [] = []
skip_space (c ∷ s) = elim (is_space c) [ true ↦ skip_space s | false ↦ c ∷ s ]

-- The value of the digits in front.
unfoldable pub digits_value : Bytes → ℕ → ℕ
digits_value [] n = n
digits_value (c ∷ s) n = elim (is_digit c) [ true ↦ digits_value s (n * 10 + (c - 48)) | false ↦ n ]

abbrev pub starts_with_digit : Bytes → Bool
starts_with_digit [] = false
starts_with_digit (c ∷ s) = is_digit c

unfoldable pub magnitude : Bytes → Result ℕ
magnitude s = if starts_with_digit s then ok (digits_value s 0) else err invalid_argument

abbrev pub positive : Result ℕ → Result ℕ
positive (ok n) = if ltb n (2 ^ 31) then ok n else err out_of_range
positive (err f) = err f

abbrev pub negative : Result ℕ → Result ℕ
negative (ok n) = if leb n (2 ^ 31) then ok (sub32 0 n) else err out_of_range
negative (err f) = err f

-- An optional sign, then digits; what follows them is ignored.
abbrev pub signed : Bytes → Result ℕ
signed [] = err invalid_argument
signed (c ∷ s) =
    if c == b'-'
    then negative (magnitude s)
    else if c == b'+'
    then positive (magnitude s)
    else positive (magnitude (c ∷ s))

unfoldable pub stoi : Bytes → Result ℕ
stoi s = signed (skip_space s)
