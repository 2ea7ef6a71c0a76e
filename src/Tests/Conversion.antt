-- ===== src/Tests/Conversion.antt =====
-- Bytes as text, and the fields of packets.
use cwusb.Base.{ℕ, zero, suc, ◌≡◌, refl, [], ◌∷◌, ◌++◌, Bytes, some, drop, replicate, arith}
use cwusb.NetConversion.{pretty_hex_string, get_raw_data}
use cwusb.NetConversion.Dump.{AllBytes, read_dump, behind_byte, read_dump-pretty_hex_string}
use cwusb.Headers.{Ieee80211Hdr, ieee80211_hdr, le16}
use cwusb.Headers.Fields.{HoldsHeader, data_frame-fields}
use cwusb.Headers.Net80211

-- Two lines, the second of two bytes.
abbrev sixty_six : Bytes
sixty_six = replicate 64 0xAB ++ (7 ∷ 255 ∷ [])

same-AllBytes : (n : ℕ) (bs : Bytes) → AllBytes bs → AllBytes (replicate n 0xAB ++ bs)
same-AllBytes zero bs all = all
same-AllBytes (suc n) bs all = (omega arith, same-AllBytes n bs all)

read_dump-pretty_hex_string_example :
    read_dump behind_byte 0 (pretty_hex_string sixty_six) ≡ some sixty_six
read_dump-pretty_hex_string_example =
    read_dump-pretty_hex_string sixty_six
      (same-AllBytes 64 (7 ∷ 255 ∷ []) (omega arith, (omega arith, tt))) (omega arith)

abbrev header_of_data : Ieee80211Hdr
header_of_data = record {
  frame_control = Net80211.data_type;
  duration_id = 314;
  addr1 = replicate 6 1;
  addr2 = replicate 6 2;
  addr3 = replicate 6 3;
  seq_ctrl = 16;
}

data_frame-fields_example :
    let frame =
      ieee80211_hdr header_of_data
      ++ ((0xAA ∷ 0xAA ∷ 3 ∷ 0 ∷ 0 ∷ 0 ∷ []) ++ (le16 0xC888 ++ (7 ∷ []))) in
    HoldsHeader header_of_data frame
    × (get_raw_data Net80211.ether_type_length frame Net80211.ether_type_index ≡ 0xC888)
    × (drop Net80211.data_index frame ≡ 7 ∷ [])
    × (Net80211.data_header_length ≡ Net80211.data_index)
data_frame-fields_example =
    data_frame-fields header_of_data
      (record {
        frame_control = omega arith;
        duration_id = omega arith;
        seq_ctrl = omega arith;
        addr1 = refl;
        addr2 = refl;
        addr3 = refl;
      })
      (0xAA ∷ 0xAA ∷ 3 ∷ 0 ∷ 0 ∷ 0 ∷ []) (7 ∷ []) 0xC888 refl (omega arith)
