-- ===== src/Base/Text.antt =====
-- Texts of the source as byte strings, and what `std::string` does with them.
use Prim.Native.Char.{code}
use Prim.Native.Nat.{ℕ, ◌+◌}
use Prim.Native.String.{String}
use mathlib.Core.Option
use mathlib.Core.Option.{Option, none, some}
use mathlib.Core.List.{[], ◌∷◌}
use mathlib.Core.Path.{◌≡◌, refl}
use mathlib.Core.Bool.{true}
use native.Mathlib.Omega.{arith}
use cwusb.Base.Tests.{leb, ◌==◌, if◌then◌else◌}
use cwusb.Base.Lists.{Bytes, equal, length, take, drop}
use cwusb.Base.Memory.{Result, ok, err, out_of_range}

-- The bytes of an ASCII text.
abbrev pub codes : String → Bytes
codes String.[] = []
codes (String.◌∷◌ c s) = code c ∷ codes s

-- `find` of a character; `none` is `npos`
abbrev pub find : ℕ → Bytes → Option ℕ
find c [] = none
find c (x ∷ xs) = if x == c then some 0 else Option.map (λ i. i + 1) (find c xs)

-- `substr(pos)`, which throws if `pos` is past the end
abbrev pub substr_from : ℕ → Bytes → Result Bytes
substr_from pos s = if leb pos (length s) then ok (drop pos s) else err out_of_range

-- `substr(pos, n)`
abbrev pub substr : ℕ → ℕ → Bytes → Result Bytes
substr pos n s = if leb pos (length s) then ok (take n (drop pos s)) else err out_of_range

pub equal_refl : (xs : Bytes) → equal xs xs ≡ true
unfolding equal
equal_refl [] = refl
equal_refl (x ∷ xs) = ground (arith, equal_refl xs)

pub equal→eq : (xs ys : Bytes) → equal xs ys ≡ true → xs ≡ ys
unfolding equal
equal→eq [] [] h = refl
equal→eq [] (y ∷ ys) h = absurd (ground arith)
equal→eq (x ∷ xs) [] h = absurd (ground arith)
equal→eq (x ∷ xs) (y ∷ ys) h = ground (arith, equal→eq xs ys)
