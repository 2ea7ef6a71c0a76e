-- ===== src/NetConversion.antt =====
-- Includes/NetConversionFunctions.h: reading words of a packet, and bytes as text.
pub mod Digits
pub mod Dump
pub mod Swap
use cwusb.Base.{
  ℕ, zero, suc, ◌+◌, ◌-◌, ◌/◌, ◌%◌, ◌*◌, ◌^◌, Bool, not, ◌&&◌, List, [], ◌∷◌, ◌++◌, Bytes, length,
  get_or, take, drop, replicate, codes, add32, ltb, ◌==◌, if◌then◌else◌,
}

abbrev pub hex_digit : ℕ → ℕ
hex_digit n = if ltb n 10 then 48 + n else 87 + n

-- `std::hex`: the digits of a number, of which there are `k` at most, without zeros in front.
unfoldable pub hex_digits : ℕ → ℕ → Bytes
hex_digits zero n = []
hex_digits (suc k) n =
    let before = hex_digits k (n / 16) in
    (if ltb n 16 then [] else before) ++ (hex_digit (n % 16) ∷ [])

-- `std::setfill('0') << std::setw(width)`
abbrev pub set_width : ℕ → Bytes → Bytes
set_width width digits = replicate (width - length digits) 48 ++ digits

-- A 32-bit number in hexadecimal, with `width` digits or more.
unfoldable pub hex : ℕ → ℕ → Bytes
hex width n = set_width width (hex_digits 8 n)

-- What stands before a byte: a new line after every 64.
unfoldable pub before_octet : ℕ → Bytes
before_octet count =
    if not (count == 0) && count % 64 == 0
    then 10 ∷ (hex 6 count ++ (32 ∷ []))
    else if not (count == 0)
    then 32 ∷ []
    else []

-- The loop, its counter an `unsigned int`, over data of fewer than 2^32 bytes.
unfoldable pub octets : ℕ → Bytes → Bytes
octets count [] = []
octets count (b ∷ bs) = before_octet count ++ (hex 2 (b % 256) ++ octets (add32 count 1) bs)

-- `PrettyHexString`
unfoldable pub pretty_hex_string : Bytes → Bytes
pretty_hex_string bytes = 10 ∷ (codes "000000 " ++ octets 0 bytes)

-- The macros that swap bytes, as the header defines them. Shifts are products and quotients, and
-- `|` of words without a common bit is their sum.
unfoldable pub bswap_16 : ℕ → ℕ
bswap_16 value = (value % 2 ^ 8) * 2 ^ 8 + value / 2 ^ 8

unfoldable pub bswap_32 : ℕ → ℕ
bswap_32 value = bswap_16 (value % 2 ^ 16) * 2 ^ 16 + bswap_16 (value / 2 ^ 16 % 2 ^ 16)

unfoldable pub bswap_64 : ℕ → ℕ
bswap_64 value = bswap_32 (value % 2 ^ 32) * 2 ^ 32 + bswap_32 (value / 2 ^ 32 % 2 ^ 32)

-- `SwapMacEndian`
unfoldable pub swap_mac_endian : ℕ → ℕ
swap_mac_endian mac = bswap_64 mac / 2 ^ 16

-- `GetRawData` of an unsigned type of `size` bytes, on a little-endian machine; the read is inside
-- the packet.
unfoldable pub get_raw_data : ℕ → Bytes → ℕ → ℕ
get_raw_data zero packet index = 0
get_raw_data (suc size) packet index =
    get_or packet index 0 + 256 * get_raw_data size packet (index + 1)

-- `GetRawString`
abbrev pub get_raw_string : Bytes → ℕ → ℕ → Bytes
get_raw_string packet index length = take length (drop index packet)
