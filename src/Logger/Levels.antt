-- ===== src/Logger/Levels.antt =====
-- The levels of `Logger`, and their texts.
use cwusb.Base.{
  ℕ, Bool, true, false, ◌&&◌, ◌||◌, List, [], ◌∷◌, Bytes, codes, ◌==◌, if◌then◌else◌, ◌≡◌, refl,
}

pub data Level : Type 0 where
  trace debug info warning error : Level

-- `static_cast` of a level
abbrev pub level_number : Level → ℕ
level_number trace = 0
level_number debug = 1
level_number info = 2
level_number warning = 3
level_number error = 4

-- `cDefaultLogLevel`
abbrev pub default_log_level : Level
default_log_level = info

-- `cLevelTexts`, at a level.
abbrev pub level_text : Level → Bytes
level_text trace = codes "Trace"
level_text debug = codes "Debug"
level_text info = codes "Info"
level_text warning = codes "Warning"
level_text error = codes "Error"

-- The levels in the order of `cLevelTexts`.
abbrev pub levels : List Level
levels = trace ∷ debug ∷ info ∷ warning ∷ error ∷ []

unfoldable pub convert_log_level_to_string : Level → Bytes
convert_log_level_to_string level = level_text level

abbrev pub starts_with : Bytes → Bytes → Bool
starts_with [] s = true
starts_with (c ∷ pattern) [] = false
starts_with (c ∷ pattern) (x ∷ s) = c == x && starts_with pattern s

-- `s.find(pattern) != npos`
abbrev pub contains : Bytes → Bytes → Bool
contains pattern [] = starts_with pattern []
contains pattern (x ∷ s) = starts_with pattern (x ∷ s) || contains pattern s

-- The loop: the last level whose text contains the pattern.
abbrev pub last_match : List Level → Bytes → Level → Level
last_match [] text found = found
last_match (level ∷ rest) text found =
    last_match rest text (if contains text (level_text level) then level else found)

unfoldable pub convert_log_level_string_to_level : Bytes → Level
convert_log_level_string_to_level text = last_match levels text default_log_level

pub convert_log_level_string_to_level-text :
    (level : Level) → convert_log_level_string_to_level (convert_log_level_to_string level) ≡ level
unfolding convert_log_level_string_to_level convert_log_level_to_string
convert_log_level_string_to_level-text trace = refl
convert_log_level_string_to_level-text debug = refl
convert_log_level_string_to_level-text info = refl
convert_log_level_string_to_level-text warning = refl
convert_log_level_string_to_level-text error = refl
