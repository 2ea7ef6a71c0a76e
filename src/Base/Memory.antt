-- ===== src/Base/Memory.antt =====
-- What a C++ statement can do besides return: the undefined behaviour of a copy out of an array's
-- bounds, an exception, or (only in a model of a loop) the end of the fuel.
use Prim.Native.Nat.{ℕ, ◌+◌, ◌≤◌, ◌<◌}
use mathlib.Core.Path.{◌≡◌, refl, sym}
use mathlib.Core.Logic.{◌⊎◌, inl, inr}
use mathlib.Core.Bool.{◌&&◌}
use mathlib.Core.List.{◌++◌}
use native.Mathlib.Omega.{arith}
use cwusb.Base.Tests.{leb, if◌then◌else◌, le→leb, gt→leb}
use cwusb.Base.Lists.{
  Bytes, length, take, drop, length-append, length-take, length-drop, take_prefix,
}

pub data Fault : Type 0 where
  out_of_bounds null_pointer out_of_range invalid_argument bad_address out_of_fuel : Fault

pub data Result {ℓ} (A : Type ℓ) : Type ℓ where
  ok : A → Result A
  err : Fault → Result A

infixl 5 ◌>>=◌
abbrev pub ◌>>=◌ {ℓ κ} : {A : Type ℓ} {B : Type κ} → Result A → (A → Result B) → Result B
ok a >>= f = f a
err e >>= f = err e

pub Result-cases {ℓ} :
    {A : Type ℓ} (m : Result A) → ((a : A) × (m ≡ ok a)) ⊎ ((f : Fault) × (m ≡ err f))
Result-cases (ok a) = inl (a, refl)
Result-cases (err f) = inr (f, refl)

-- `memcpy(dst + to, src + from, n)` on arrays: the new `dst`, or the fault of a copy that leaves
-- one of the two arrays.
unfoldable pub memcpy : Bytes → ℕ → Bytes → ℕ → ℕ → Result Bytes
memcpy dst to src from n =
    if leb (to + n) (length dst) && leb (from + n) (length src)
    then ok (take to dst ++ take n (drop from src) ++ drop (to + n) dst)
    else err out_of_bounds

-- The array after a copy that stays in bounds.
abbrev pub copied : Bytes → ℕ → Bytes → ℕ → ℕ → Bytes
copied dst to src from n = take to dst ++ take n (drop from src) ++ drop (to + n) dst

module _ (dst : Bytes) (to : ℕ) (src : Bytes) (from n : ℕ) where
  pub memcpy_in_bounds :
      to + n ≤ length dst
      → from + n ≤ length src
      → memcpy dst to src from n ≡ ok (copied dst to src from n)
  unfolding memcpy
  memcpy_in_bounds h k = rw (le→leb _ _ h, le→leb _ _ k)

  pub memcpy_past_end : length dst < to + n → memcpy dst to src from n ≡ err out_of_bounds
  unfolding memcpy
  memcpy_past_end h = rw (gt→leb _ _ h)

  length_chunk : from + n ≤ length src → length (take n (drop from src)) ≡ n
  length_chunk k = omega (arith, length-take n (drop from src), length-drop from src)

  length_filled :
      to ≤ length dst
      → from + n ≤ length src
      → length (take to dst ++ take n (drop from src)) ≡ to + n
  length_filled h k = omega (
    arith,
    length-append (take to dst) (take n (drop from src)),
    length-take to dst,
    length_chunk k,
  )

  pub length-copied :
      to + n ≤ length dst → from + n ≤ length src → length (copied dst to src from n) ≡ length dst
  length-copied h k = omega (
    arith,
    length-append (take to dst ++ take n (drop from src)) (drop (to + n) dst),
    length-drop (to + n) dst,
    length_filled (omega arith) k,
  )

  -- What the array holds up to the end of the copy.
  pub take-copied :
      to + n ≤ length dst
      → from + n ≤ length src
      → take (to + n) (copied dst to src from n) ≡ take to dst ++ take n (drop from src)
  take-copied h k =
      take_prefix (take to dst ++ take n (drop from src)) (drop (to + n) dst) (to + n)
        (sym (length_filled (omega arith) k))
