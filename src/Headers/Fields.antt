-- ===== src/Headers/Fields.antt =====
-- Reading the fields of a packet with `GetRawData` and `GetRawString` at the constants' places.
use cwusb.Base.{
  ℕ, ◌+◌, ◌^◌, ◌<◌, ◌≡◌, refl, sym, ap, ◌∙◌, List, [], ◌∷◌, ◌++◌, append_assoc, Bytes, length, drop,
  take_middle, drop_prefix, length-append, arith,
}
use cwusb.NetConversion.{get_raw_data, get_raw_string}
use cwusb.NetConversion.Swap.{little_endian, get_raw_data-little_endian}
use cwusb.Headers.{le16, packed, Ieee80211Hdr, ieee80211_hdr}
use cwusb.Headers.Net80211

abbrev pub total : List Bytes → ℕ
total [] = 0
total (f ∷ fs) = length f + total fs

length-packed : (fs : List Bytes) → length (packed fs) ≡ total fs
length-packed [] = refl
length-packed (f ∷ fs) = omega (arith, length-append f (packed fs), length-packed fs)

-- A field in its place, with what stands before it and behind.
packed_around :
    (before : List Bytes) (f : Bytes) (after : List Bytes) (rest : Bytes)
    → packed (before ++ (f ∷ after)) ++ rest ≡ packed before ++ (f ++ (packed after ++ rest))
packed_around [] f after rest = append_assoc f (packed after) rest
packed_around (b ∷ before) f after rest =
    append_assoc b (packed (before ++ (f ∷ after))) rest
    ∙ ap (λ x. b ++ x) (packed_around before f after rest)
    ∙ sym (append_assoc b (packed before) (f ++ (packed after ++ rest)))

string_of_field :
    (before : List Bytes) (f : Bytes) (after : List Bytes) (rest : Bytes) (i n : ℕ)
    → i ≡ total before
    → n ≡ length f
    → get_raw_string (packed (before ++ (f ∷ after)) ++ rest) i n ≡ f
string_of_field before f after rest i n e k =
    ap (λ x. get_raw_string x i n) (packed_around before f after rest)
    ∙ take_middle (packed before) f (packed after ++ rest) i n (omega (arith, length-packed before))
        k

number_of_field :
    (before : List Bytes) (f : Bytes) (after : List Bytes) (rest : Bytes) (i : ℕ)
    → i ≡ total before
    → get_raw_data (length f) (packed (before ++ (f ∷ after)) ++ rest) i ≡ little_endian f
number_of_field before f after rest i e =
    ap (λ x. get_raw_data (length f) x i) (packed_around before f after rest)
    ∙ get_raw_data-little_endian f (packed before) (packed after ++ rest) i
        (omega (arith, length-packed before))

little_endian-le16 : (w : ℕ) → w < 2 ^ 16 → little_endian (le16 w) ≡ w
little_endian-le16 w h = omega arith

-- The numbers fit their fields and the arrays have the size that the struct says.
pub record IsHeader (h : Ieee80211Hdr) : Type 0 where
  pub frame_control : h.frame_control < 2 ^ 16
  pub duration_id : h.duration_id < 2 ^ 16
  pub seq_ctrl : h.seq_ctrl < 2 ^ 16
  pub addr1 : length h.addr1 ≡ 6
  pub addr2 : length h.addr2 ≡ 6
  pub addr3 : length h.addr3 ≡ 6

-- The fields of the header.
abbrev pub HoldsHeader : Ieee80211Hdr → Bytes → Type 0
HoldsHeader h frame =
    (get_raw_data Net80211.type_length frame Net80211.type_index ≡ h.frame_control)
    × (get_raw_data Net80211.duration_length frame Net80211.duration_index ≡ h.duration_id)
    × (get_raw_string frame Net80211.destination_address_index Net80211.destination_address_length
        ≡ h.addr1)
    × (get_raw_string frame Net80211.source_address_index Net80211.source_address_length ≡ h.addr2)
    × (get_raw_string frame Net80211.bssid_index Net80211.bssid_length ≡ h.addr3)
    × (get_raw_data Net80211.fragment_number_length frame Net80211.fragment_number_index
        ≡ h.seq_ctrl)

module _ (h : Ieee80211Hdr) (v : IsHeader h) where
  pub length-ieee80211_hdr : length (ieee80211_hdr h) ≡ Net80211.ieee80211_data_header_length
  unfolding ieee80211_hdr
  length-ieee80211_hdr = omega (
    arith,
    length-packed (
        le16 h.frame_control
        ∷ le16 h.duration_id
        ∷ h.addr1
        ∷ h.addr2
        ∷ h.addr3
        ∷ le16 h.seq_ctrl
        ∷ []),
    v.addr1,
    v.addr2,
    v.addr3,
  )

  ieee80211_hdr-HoldsHeader : (rest : Bytes) → HoldsHeader h (ieee80211_hdr h ++ rest)
  unfolding ieee80211_hdr
  ieee80211_hdr-HoldsHeader rest = (
    number_of_field [] (le16 h.frame_control)
          (le16 h.duration_id ∷ h.addr1 ∷ h.addr2 ∷ h.addr3 ∷ le16 h.seq_ctrl ∷ []) rest 0 refl
        ∙ little_endian-le16 h.frame_control v.frame_control,
    number_of_field (le16 h.frame_control ∷ []) (le16 h.duration_id)
          (h.addr1 ∷ h.addr2 ∷ h.addr3 ∷ le16 h.seq_ctrl ∷ []) rest 2 refl
        ∙ little_endian-le16 h.duration_id v.duration_id,
    string_of_field (le16 h.frame_control ∷ le16 h.duration_id ∷ []) h.addr1
        (h.addr2 ∷ h.addr3 ∷ le16 h.seq_ctrl ∷ []) rest 4 6 refl (sym v.addr1),
    string_of_field (le16 h.frame_control ∷ le16 h.duration_id ∷ h.addr1 ∷ []) h.addr2
        (h.addr3 ∷ le16 h.seq_ctrl ∷ []) rest 10 6 (omega (arith, v.addr1)) (sym v.addr2),
    string_of_field (le16 h.frame_control ∷ le16 h.duration_id ∷ h.addr1 ∷ h.addr2 ∷ []) h.addr3
        (le16 h.seq_ctrl ∷ []) rest 16 6 (omega (arith, v.addr1, v.addr2)) (sym v.addr3),
    number_of_field (le16 h.frame_control ∷ le16 h.duration_id ∷ h.addr1 ∷ h.addr2 ∷ h.addr3 ∷ [])
          (le16 h.seq_ctrl) [] rest 22 (omega (arith, v.addr1, v.addr2, v.addr3))
        ∙ little_endian-le16 h.seq_ctrl v.seq_ctrl,
  )

  -- In a frame of 802.11 data, with a header, 6 bytes of LLC, the type and the data, the index and the
  -- length that the constants give each field find exactly that field: the control word, the
  -- duration, the three addresses, the fragment number, the type and the data.
  pub data_frame-fields :
      (llc body : Bytes) (ether_type : ℕ)
      → length llc ≡ 6
      → ether_type < 2 ^ 16
      → let frame = ieee80211_hdr h ++ (llc ++ (le16 ether_type ++ body)) in
        HoldsHeader h frame
        × (get_raw_data Net80211.ether_type_length frame Net80211.ether_type_index ≡ ether_type)
        × (drop Net80211.data_index frame ≡ body)
        × (Net80211.data_header_length ≡ Net80211.data_index)
  data_frame-fields llc body ether_type six small =
      let start : length (ieee80211_hdr h ++ llc) ≡ 30 =
        omega (arith, length-append (ieee80211_hdr h) llc, length-ieee80211_hdr, six) in
      let split = sym (append_assoc (ieee80211_hdr h) llc (le16 ether_type ++ body)) in
      (
        ieee80211_hdr-HoldsHeader (llc ++ (le16 ether_type ++ body)),
        ap (λ x. get_raw_data 2 x 30) split
            ∙ get_raw_data-little_endian (le16 ether_type) (ieee80211_hdr h ++ llc) body 30
                (sym start)
            ∙ little_endian-le16 ether_type small,
        ap (drop 32) (split ∙ sym (append_assoc (ieee80211_hdr h ++ llc) (le16 ether_type) body))
            ∙ drop_prefix (ieee80211_hdr h ++ llc ++ le16 ether_type) body 32
                (omega (arith, length-append (ieee80211_hdr h ++ llc) (le16 ether_type), start)),
        refl,
      )
