-- ===== src/Settings/Lines.antt =====
-- One line of the settings' file, written and read.
use cwusb.Base.{
  ℕ, zero, suc, ◌+◌, ◌-◌, ◌/◌, ◌%◌, ◌^◌, ◌≡◌, refl, sym, ap, ◌∙◌, Bool, true, false, not, ◌&&◌, [],
  ◌∷◌, ◌++◌, append-nil, append_assoc, some, Bytes, length, take, drop, find, length-append,
  take_prefix, drop_prefix, equal, ltb, ◌==◌, Bool-cases, inl, inr, arith,
}
use cwusb.Settings.Numbers.{digits_before, to_string, is_space}
use cwusb.Settings.Model.{
  Settings, quoted, line, lines, without_space, unquote, split_option, set_option, load_line,
  load_lines, load_text,
}
use cwusb.Settings.Decimal.{digits_before-small, digits_before-large, digits_before-zero}

-- No space of any kind, and no newline.
abbrev pub is_plain : Bytes → Bool
is_plain [] = true
is_plain (c ∷ s) = not (is_space c) && is_plain s

-- The character does not occur.
abbrev pub avoids : ℕ → Bytes → Bool
avoids x [] = true
avoids x (c ∷ s) = not (c == x) && avoids x s

avoids-append :
    (x : ℕ) (s t : Bytes) → avoids x s ≡ true → avoids x t ≡ true → avoids x (s ++ t) ≡ true
avoids-append x [] t h k = k
avoids-append x (c ∷ s) t h k = ground (arith, avoids-append x s t)

is_plain-avoids : (s : Bytes) → is_plain s ≡ true → avoids 10 s ≡ true
is_plain-avoids [] h = refl
is_plain-avoids (c ∷ s) h = ground (arith, is_plain-avoids s)

is_plain-digits_before :
    (fuel n : ℕ) (text : Bytes) → is_plain text ≡ true → is_plain (digits_before fuel n text) ≡ true
is_plain-digits_before zero n text h = ap is_plain (digits_before-zero n text) ∙ h
is_plain-digits_before (suc fuel) n text h = elim (Bool-cases (ltb n 10)) [
  | inl small ↦ ap is_plain (digits_before-small fuel n text (ground arith)) ∙ ground arith
  | inr large ↦
      ap is_plain (digits_before-large fuel n text (ground arith))
      ∙ is_plain-digits_before fuel (n / 10) ((48 + n % 10) ∷ text) (ground arith)
]

pub is_plain-to_string : (w : ℕ) → is_plain (to_string w) ≡ true
unfolding to_string
is_plain-to_string w =
    ground
      (arith, is_plain-digits_before 10 w [] refl, is_plain-digits_before 10 (2 ^ 32 - w) [] refl)

lines-other :
    (current : Bytes) (c : ℕ) (text : Bytes)
    → c == 10 ≡ false
    → lines current (c ∷ text) ≡ lines (current ++ (c ∷ [])) text
lines-other current c text h = ground arith

-- A line ends at its newline.
lines-newline :
    (current s rest : Bytes)
    → avoids 10 s ≡ true
    → lines current ((s ++ (10 ∷ [])) ++ rest) ≡ (current ++ s) ∷ lines [] rest
lines-newline current [] rest h = ap (λ c. c ∷ lines [] rest) (sym (append-nil current))
lines-newline current (c ∷ s) rest h =
    lines-other current c ((s ++ (10 ∷ [])) ++ rest) (ground arith)
    ∙ lines-newline (current ++ (c ∷ [])) s rest (ground arith)
    ∙ ap (λ t. t ∷ lines [] rest) (append_assoc current (c ∷ []) s)

without_space-append :
    (s t : Bytes) → is_plain s ≡ true → without_space (s ++ t) ≡ s ++ without_space t
without_space-append [] t h = refl
without_space-append (c ∷ s) t h = ground (arith, without_space-append s t)

find-append :
    (key rest : Bytes)
    → avoids b':' key ≡ true
    → find b':' (key ++ (b':' ∷ rest)) ≡ some (length key)
find-append [] rest h = refl
find-append (c ∷ key) rest h = ground (arith, find-append key rest)

split_option-append :
    (key rest : Bytes) → avoids b':' key ≡ true → split_option (key ++ (b':' ∷ rest)) ≡ (key, rest)
split_option-append key rest h =
    let before : take (length key) (key ++ (b':' ∷ rest)) ≡ key =
      take_prefix key (b':' ∷ rest) (length key) refl in
    let behind : drop (length key + 1) (key ++ (b':' ∷ rest)) ≡ rest =
      ap (drop (length key + 1)) (sym (append_assoc key (b':' ∷ []) rest))
      ∙ drop_prefix (key ++ (b':' ∷ [])) rest (length key + 1)
          (omega (arith, length-append key (b':' ∷ []))) in
    ground (arith, find-append key rest h, before, behind)

pub unquote-quoted : (value : Bytes) → unquote (quoted value) ≡ value
unquote-quoted value =
    take_prefix value (34 ∷ []) (length (quoted value) - 2)
      (omega (arith, length-append value (34 ∷ [])))

-- What is read of a written line is the option and its value between quotes.
load_line-line :
    (m : Settings) (key value : Bytes)
    → is_plain key ≡ true
    → avoids b':' key ≡ true
    → is_plain value ≡ true
    → load_line m (key ++ (b':' ∷ 32 ∷ quoted value)) ≡ set_option m key (quoted value)
unfolding load_line equal
load_line-line m key value k colon v =
    let stripped : without_space (key ++ (b':' ∷ 32 ∷ quoted value))
        ≡ key ++ (b':' ∷ quoted value) =
      without_space-append key (b':' ∷ 32 ∷ quoted value) k
      ∙ ap (λ t. key ++ (b':' ∷ 34 ∷ t)) (without_space-append value (34 ∷ []) v) in
    rw (stripped, split_option-append key (quoted value) colon) refl

-- The first line of a text is read first.
pub load_text-line :
    (m : Settings) (key value rest : Bytes)
    → is_plain key ≡ true
    → avoids b':' key ≡ true
    → is_plain value ≡ true
    → load_text m (line key value ++ rest) ≡ load_text (set_option m key (quoted value)) rest
unfolding load_text
load_text-line m key value rest k colon v =
    ap (load_lines m) (
      lines-newline [] (key ++ (b':' ∷ 32 ∷ quoted value)) rest (
        avoids-append 10 key (b':' ∷ 32 ∷ quoted value) (is_plain-avoids key k)
          (avoids-append 10 value (34 ∷ []) (is_plain-avoids value v) refl)))
    ∙ ap (λ x. load_lines x (lines [] rest)) (load_line-line m key value k colon v)
