-- ===== src/NetConversion/Dump.antt =====
-- A reader of the text that `PrettyHexString` writes.
use cwusb.Base.{
  ℕ, ◌+◌, ◌*◌, ◌/◌, ◌%◌, ◌^◌, ◌<◌, ◌≡◌, refl, ap, ◌∙◌, Bool, true, false, not, inl, inr, [], ◌∷◌,
  ◌++◌, append_assoc, Option, none, some, Bytes, length, add32, ◌==◌, if◌then◌else◌, Bool-cases,
  arith,
}
use cwusb.NetConversion.{hex_digit, hex, before_octet, octets, pretty_hex_string}
use cwusb.NetConversion.Digits.{
  digit_value, digit_value-hex_digit, spelled, NoSpace, NoSpace-hex, spelled-hex, hex-byte,
}

-- Where the reader is: in the number in front of a line, before a byte, behind its first digit, or
-- behind a byte.
pub data Phase : Type 0 where
  in_offset : ℕ → Phase
  at_byte : Phase
  in_byte : ℕ → Phase
  behind_byte : Phase

-- One character, when `count` bytes are read: the next phase and the byte that it ends. A line ends
-- after 64 bytes and nowhere else, and the number in front of a line is that of the bytes before it.
abbrev pub step : Phase → ℕ → ℕ → Option (Phase × Option ℕ)
step (in_offset v) count c =
    if c == 32
    then (if v == count then some (at_byte, none) else none)
    else some (in_offset (v * 16 + digit_value c), none)
step at_byte count c = some (in_byte (digit_value c), none)
step (in_byte h) count c = some (behind_byte, some (h * 16 + digit_value c))
step behind_byte count c =
    if count % 64 == 0
    then (if c == 10 then some (in_offset 0, none) else none)
    else (if c == 32 then some (at_byte, none) else none)

-- The text may end behind a byte, or where the first one would stand.
abbrev pub may_end : Phase → ℕ → Bool
may_end at_byte count = count == 0
may_end behind_byte count = not (count == 0)
may_end _ count = false

abbrev pub counted : Option ℕ → ℕ → ℕ
counted none count = count
counted (some b) count = count + 1

abbrev pub with_byte : Option ℕ → Option Bytes → Option Bytes
with_byte none bytes = bytes
with_byte (some b) none = none
with_byte (some b) (some bytes) = some (b ∷ bytes)

-- The bytes of the text.
unfoldable pub read_dump : Phase → ℕ → Bytes → Option Bytes
read_dump phase count [] = if may_end phase count then some [] else none
read_dump phase count (c ∷ cs) = elim (step phase count c) [
  | none ↦ none
  | some (phase', byte) ↦ with_byte byte (read_dump phase' (counted byte count) cs)
]

-- Every element is a byte.
abbrev pub AllBytes : Bytes → Type 0
AllBytes [] = Unit {0}
AllBytes (b ∷ bs) = (b < 256) × AllBytes bs

read_dump-digits :
    (v count : ℕ) (ds rest : Bytes)
    → NoSpace ds
    → read_dump (in_offset v) count (ds ++ rest) ≡ read_dump (in_offset (spelled v ds)) count rest
unfolding read_dump
read_dump-digits v count [] rest p = refl
read_dump-digits v count (d ∷ ds) rest (p, ps) =
    rw (p, read_dump) (read_dump-digits (v * 16 + digit_value d) count ds rest ps)

read_dump-space :
    (count : ℕ) (rest : Bytes)
    → read_dump (in_offset count) count (32 ∷ rest) ≡ read_dump at_byte count rest
unfolding read_dump
read_dump-space count rest = ground arith

-- The number in front of a line.
read_dump-offset :
    (count : ℕ) (rest : Bytes)
    → count < 2 ^ 32
    → read_dump (in_offset 0) count (hex 6 count ++ (32 ∷ rest)) ≡ read_dump at_byte count rest
read_dump-offset count rest h =
    read_dump-digits 0 count (hex 6 count) (32 ∷ rest) (NoSpace-hex 6 count)
    ∙ ap (λ v. read_dump (in_offset v) count (32 ∷ rest)) (spelled-hex 6 count h)
    ∙ read_dump-space count rest

read_dump-pair :
    (count x y : ℕ) (rest : Bytes)
    → read_dump at_byte count (x ∷ y ∷ rest)
      ≡ with_byte
          (some (digit_value x * 16 + digit_value y))
          (read_dump behind_byte (count + 1) rest)
unfolding read_dump
read_dump-pair count x y rest = refl

-- A byte.
read_dump-byte :
    (count b : ℕ) (rest : Bytes)
    → b < 256
    → read_dump at_byte count (hex 2 (b % 256) ++ rest)
      ≡ with_byte (some b) (read_dump behind_byte (count + 1) rest)
read_dump-byte count b rest h =
    ap (λ ds. read_dump at_byte count (ds ++ rest))
      (ap (hex 2) {x = b % 256} {y = b} (omega arith) ∙ hex-byte b h)
    ∙ read_dump-pair count (hex_digit (b / 16)) (hex_digit (b % 16)) rest
    ∙ ap (λ x. with_byte (some x) (read_dump behind_byte (count + 1) rest))
        (omega (
          arith,
          digit_value-hex_digit (b / 16) (omega arith),
          digit_value-hex_digit (b % 16) (omega arith),
        ))

read_dump-newline :
    (count : ℕ) (rest : Bytes)
    → count % 64 == 0 ≡ true
    → read_dump behind_byte count (10 ∷ rest) ≡ read_dump (in_offset 0) count rest
unfolding read_dump
read_dump-newline count rest line = ground (arith, line)

read_dump-blank :
    (count : ℕ) (rest : Bytes)
    → count % 64 == 0 ≡ false
    → read_dump behind_byte count (32 ∷ rest) ≡ read_dump at_byte count rest
unfolding read_dump
read_dump-blank count rest line = ground (arith, line)

before_octet_newline :
    (count : ℕ)
    → 0 < count
    → count % 64 == 0 ≡ true
    → before_octet count ≡ 10 ∷ (hex 6 count ++ (32 ∷ []))
unfolding before_octet
before_octet_newline count pos line = ground (arith, line)

before_octet_blank :
    (count : ℕ) → 0 < count → count % 64 == 0 ≡ false → before_octet count ≡ 32 ∷ []
unfolding before_octet
before_octet_blank count pos line = ground (arith, line)

-- What stands before a byte that is not the first.
read_dump-before :
    (count : ℕ) (rest : Bytes)
    → 0 < count
    → count < 2 ^ 32
    → read_dump behind_byte count (before_octet count ++ rest) ≡ read_dump at_byte count rest
read_dump-before count rest pos h = elim (Bool-cases (count % 64 == 0)) [
  | inl line ↦
      ap (λ x. read_dump behind_byte count (x ++ rest)) (before_octet_newline count pos line)
      ∙ read_dump-newline count (hex 6 count ++ (32 ∷ []) ++ rest) line
      ∙ ap (read_dump (in_offset 0) count) (append_assoc (hex 6 count) (32 ∷ []) rest)
      ∙ read_dump-offset count rest h
  | inr line ↦
      ap (λ x. read_dump behind_byte count (x ++ rest)) (before_octet_blank count pos line)
      ∙ read_dump-blank count rest line
]

read_dump-end : (count : ℕ) → 0 < count → read_dump behind_byte count [] ≡ some []
unfolding read_dump
read_dump-end count pos = ground arith

read_dump-octets :
    (count : ℕ) (bs : Bytes)
    → 0 < count
    → count + length bs < 2 ^ 32
    → AllBytes bs
    → read_dump behind_byte count (octets count bs) ≡ some bs
unfolding octets
read_dump-octets count [] pos h all = read_dump-end count pos
read_dump-octets count (b ∷ bs) pos h (small, all) =
    read_dump-before count (hex 2 (b % 256) ++ octets (add32 count 1) bs) pos (omega arith)
    ∙ read_dump-byte count b (octets (add32 count 1) bs) small
    ∙ ap (λ k. with_byte (some b) (read_dump behind_byte (count + 1) (octets k bs)))
        {x = add32 count 1} {y = count + 1} (omega arith)
    ∙ ap (with_byte (some b)) (read_dump-octets (count + 1) bs (omega arith) (omega arith) all)

read_dump-start :
    (bs : Bytes)
    → read_dump behind_byte 0 (pretty_hex_string bs) ≡ read_dump at_byte 0 (octets 0 bs)
unfolding read_dump pretty_hex_string
read_dump-start bs = refl

-- The first byte has nothing before it.
read_dump-first :
    (bs : Bytes) → AllBytes bs → length bs < 2 ^ 32 → read_dump at_byte 0 (octets 0 bs) ≡ some bs
unfolding octets before_octet read_dump
read_dump-first [] all h = refl
read_dump-first (b ∷ bs) (small, all) h =
    read_dump-byte 0 b (octets 1 bs) small
    ∙ ap (with_byte (some b)) (read_dump-octets 1 bs (omega arith) (omega arith) all)

-- The text of fewer than 2^32 bytes is read back as the same bytes. The reader asks for a new line
-- after every 64 bytes and nowhere else, for the number of the bytes before it in front of each
-- line, and for one space between the bytes of a line.
pub read_dump-pretty_hex_string :
    (bs : Bytes)
    → AllBytes bs
    → length bs < 2 ^ 32
    → read_dump behind_byte 0 (pretty_hex_string bs) ≡ some bs
read_dump-pretty_hex_string bs all h = read_dump-start bs ∙ read_dump-first bs all h
