-- ===== src/Base/Words.antt =====
-- Machine words. A 32-bit word, signed or not, is its bit pattern, a number below 2 ^ 32; an
-- `int` below zero is a pattern from 2 ^ 31 on. Words in memory are little-endian.
use Prim.Native.Nat.{ℕ, zero, suc, ◌+◌, ◌*◌, ◌/◌, ◌%◌, ◌^◌, ◌<◌, ◌-◌}
use mathlib.Core.Path.{◌≡◌, refl, ap}
use mathlib.Core.Bool.{Bool}
use mathlib.Core.List.{[], ◌∷◌, ◌++◌}
use native.Mathlib.Omega.{arith}
use cwusb.Base.Tests.{ltb, if◌then◌else◌}
use cwusb.Base.Lists.{Bytes, length, get_or}

abbrev pub add16 : ℕ → ℕ → ℕ
add16 a b = (a + b) % 2 ^ 16

abbrev pub add32 : ℕ → ℕ → ℕ
add32 a b = (a + b) % 2 ^ 32

abbrev pub sub32 : ℕ → ℕ → ℕ
sub32 a b = (a + 2 ^ 32 - b) % 2 ^ 32

-- `<` of two `int`s
abbrev pub int_lt : ℕ → ℕ → Bool
int_lt a b = ltb ((a + 2 ^ 31) % 2 ^ 32) ((b + 2 ^ 31) % 2 ^ 32)

-- -1 as an `int`
abbrev pub minus_one : ℕ
minus_one = 2 ^ 32 - 1

-- an `int` widened to a `size_t`
abbrev pub to_size : ℕ → ℕ
to_size w = if ltb w (2 ^ 31) then w else w + (2 ^ 64 - 2 ^ 32)

-- the bytes of a `uint32_t`
unfoldable pub le32 : ℕ → Bytes
le32 w = w % 256 ∷ (w / 256) % 256 ∷ (w / 65536) % 256 ∷ (w / 16777216) % 256 ∷ []

-- the `uint32_t` at an offset of a buffer
unfoldable pub get32 : Bytes → ℕ → ℕ
get32 b i =
    get_or b i 0
    + get_or b (i + 1) 0 * 256
    + get_or b (i + 2) 0 * 65536
    + get_or b (i + 3) 0 * 16777216

pub length-le32 : (w : ℕ) → length (le32 w) ≡ 4
unfolding le32
length-le32 w = refl

pub get_or-append_right :
    (pre post : Bytes) (k i : ℕ) → i ≡ length pre + k → get_or (pre ++ post) i 0 ≡ get_or post k 0
get_or-append_right [] post k i e = ap (λ j. get_or post j 0) (omega arith)
get_or-append_right (x ∷ pre) post k zero e = absurd (omega arith)
get_or-append_right (x ∷ pre) post k (suc i) e = get_or-append_right pre post k i (omega arith)

-- A word is read back from any place of a buffer.
pub get32-le32 :
    (pre post : Bytes) (w i : ℕ)
    → w < 2 ^ 32
    → i ≡ length pre
    → get32 (pre ++ (le32 w ++ post)) i ≡ w
unfolding le32 get32
get32-le32 pre post w i h e =
    rw
      (
        get_or-append_right pre (le32 w ++ post) 0 i (omega arith),
        get_or-append_right pre (le32 w ++ post) 1 (i + 1) (omega arith),
        get_or-append_right pre (le32 w ++ post) 2 (i + 2) (omega arith),
        get_or-append_right pre (le32 w ++ post) 3 (i + 3) (omega arith),
      )
      (omega arith)
