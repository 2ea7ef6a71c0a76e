-- ===== src/Settings/Unfinished.antt =====
-- What `LoadFromFile` does with a last line that has no newline.
use cwusb.Base.{◌≡◌, refl, ap, true, [], ◌∷◌, ◌++◌, some, Bytes, ◌==◌, Bool-cases, inl, inr, arith}
use cwusb.Settings.Model.{Settings, lines, load_lines, load_text, load_from_file}
use cwusb.Settings.Lines.{avoids}

-- Nothing is read of a text without a newline.
lines-unfinished : (current s : Bytes) → avoids 10 s ≡ true → lines current s ≡ []
lines-unfinished current [] h = refl
lines-unfinished current (c ∷ s) h = ground (arith, lines-unfinished (current ++ (c ∷ [])) s)

lines-append :
    (current text s : Bytes)
    → avoids 10 s ≡ true
    → lines current (text ++ (10 ∷ s)) ≡ lines current (text ++ (10 ∷ []))
lines-append current [] s h = ap (◌∷◌ current) (lines-unfinished [] s h)
lines-append current (c ∷ text) s h = elim (Bool-cases (c == 10)) [
  | inl newline ↦ ground (arith, lines-append [] text s h)
  | inr other ↦ ground (arith, lines-append (current ++ (c ∷ [])) text s h)
]

-- Whatever stands behind the last newline of the file has no effect, an option with its value
-- included.
pub load_from_file-unfinished :
    (m : Settings) (text s : Bytes)
    → avoids 10 s ≡ true
    → load_from_file m (some (text ++ (10 ∷ s))) ≡ load_from_file m (some (text ++ (10 ∷ [])))
unfolding load_from_file load_text
load_from_file-unfinished m text s h = ap (λ ls. (load_lines m ls, true)) (lines-append [] text s h)
