-- ===== src/NetConversion/Swap.antt =====
-- `SwapMacEndian` of the word that `GetRawData` reads.
use cwusb.Base.{
  ℕ, ◌+◌, ◌*◌, ◌/◌, ◌%◌, ◌^◌, ◌<◌, ◌≡◌, refl, sym, ap, ap₂, ◌∙◌, [], ◌∷◌, ◌++◌, append_assoc, Bytes,
  length, length-append, get_or-append_right, arith,
}
use cwusb.NetConversion.{bswap_16, bswap_32, bswap_64, swap_mac_endian, get_raw_data}
use cwusb.NetConversion.Dump.{AllBytes}

bswap_16-pair : (a b : ℕ) → a < 256 → b < 256 → bswap_16 (a + 256 * b) ≡ a * 256 + b
unfolding bswap_16
bswap_16-pair a b h k = omega arith

bswap_32-pair :
    (a b : ℕ)
    → a < 2 ^ 16
    → b < 2 ^ 16
    → bswap_32 (a + 2 ^ 16 * b) ≡ bswap_16 a * 2 ^ 16 + bswap_16 b
unfolding bswap_32
bswap_32-pair a b h k =
    ap₂ (λ x y. bswap_16 x * 2 ^ 16 + bswap_16 y) {x = (a + 2 ^ 16 * b) % 2 ^ 16} {y = a}
      (omega arith) (omega arith)

bswap_64-pair :
    (a b : ℕ)
    → a < 2 ^ 32
    → b < 2 ^ 32
    → bswap_64 (a + 2 ^ 32 * b) ≡ bswap_32 a * 2 ^ 32 + bswap_32 b
unfolding bswap_64
bswap_64-pair a b h k =
    ap₂ (λ x y. bswap_32 x * 2 ^ 32 + bswap_32 y) {x = (a + 2 ^ 32 * b) % 2 ^ 32} {y = a}
      (omega arith) (omega arith)

-- The number with the bytes from the most significant on.
abbrev pub big_endian : ℕ → Bytes → ℕ
big_endian v [] = v
big_endian v (b ∷ bs) = big_endian (v * 256 + b) bs

-- The number with the bytes from the least significant on.
abbrev pub little_endian : Bytes → ℕ
little_endian [] = 0
little_endian (b ∷ bs) = b + 256 * little_endian bs

pub get_raw_data-little_endian :
    (bytes pre post : Bytes) (i : ℕ)
    → i ≡ length pre
    → get_raw_data (length bytes) (pre ++ (bytes ++ post)) i ≡ little_endian bytes
unfolding get_raw_data
get_raw_data-little_endian [] pre post i e = refl
get_raw_data-little_endian (b ∷ bytes) pre post i e =
    let front = get_or-append_right pre (b ∷ (bytes ++ post)) 0 i (omega arith) in
    let behind : get_raw_data (length bytes) (pre ++ (b ∷ (bytes ++ post))) (i + 1)
        ≡ little_endian bytes =
      ap (λ x. get_raw_data (length bytes) x (i + 1))
        (sym (append_assoc pre (b ∷ []) (bytes ++ post)))
      ∙ get_raw_data-little_endian bytes (pre ++ (b ∷ [])) post (i + 1)
          (omega (arith, length-append pre (b ∷ []))) in
    ap₂ (λ x y. x + 256 * y) front behind

module _ (a b c d e f x y : ℕ) (all : AllBytes (a ∷ b ∷ c ∷ d ∷ e ∷ f ∷ x ∷ y ∷ [])) where
  bswap_64-bytes :
      bswap_64 (little_endian (a ∷ b ∷ c ∷ d ∷ e ∷ f ∷ x ∷ y ∷ []))
      ≡ ((a * 256 + b) * 2 ^ 16 + (c * 256 + d)) * 2 ^ 32 + ((e * 256 + f) * 2 ^ 16 + (x * 256 + y))
  bswap_64-bytes =
      let low : ℕ = a + 256 * b + 2 ^ 16 * (c + 256 * d) in
      let high : ℕ = e + 256 * f + 2 ^ 16 * (x + 256 * y) in
      let (pa, (pb, (pc, (pd, (pe, (pf, (px, (py, _)))))))) = all in
      ap bswap_64 {x = little_endian (a ∷ b ∷ c ∷ d ∷ e ∷ f ∷ x ∷ y ∷ [])} {y = low + 2 ^ 32 * high}
        (omega arith)
      ∙ bswap_64-pair low high (omega arith) (omega arith)
      ∙ omega (
        arith,
        bswap_32-pair (a + 256 * b) (c + 256 * d) (omega arith) (omega arith),
        bswap_32-pair (e + 256 * f) (x + 256 * y) (omega arith) (omega arith),
        bswap_16-pair a b pa pb,
        bswap_16-pair c d pc pd,
        bswap_16-pair e f pe pf,
        bswap_16-pair x y px py,
      )

  -- `SwapMacEndian` of the 64-bit word that `GetRawData` reads at the address in a packet of bytes
  -- is the address as a number with its first byte the most significant: the two bytes behind the
  -- address, which the read takes as well, leave no trace in it.
  pub swap_mac_endian-get_raw_data :
      (pre post : Bytes)
      → swap_mac_endian
          (get_raw_data 8 (pre ++ ((a ∷ b ∷ c ∷ d ∷ e ∷ f ∷ x ∷ y ∷ []) ++ post)) (length pre))
        ≡ big_endian 0 (a ∷ b ∷ c ∷ d ∷ e ∷ f ∷ [])
  unfolding swap_mac_endian
  swap_mac_endian-get_raw_data pre post =
      let (pa, (pb, (pc, (pd, (pe, (pf, (px, (py, _)))))))) = all in
      ap (λ w. bswap_64 w / 2 ^ 16)
        (get_raw_data-little_endian (a ∷ b ∷ c ∷ d ∷ e ∷ f ∷ x ∷ y ∷ []) pre post (length pre) refl)
      ∙ omega (arith, bswap_64-bytes)
