-- ===== src/Headers.antt =====
-- Includes/NetworkingHeaders.h: the packed headers of network packets, and where their fields are.
pub mod Kinds
pub mod Net8023
pub mod Net80211
pub mod RadioTap
pub mod Fields
use cwusb.Base.{ℕ, ◌+◌, ◌/◌, ◌%◌, List, [], ◌∷◌, ◌++◌, Bytes, length, le32}

-- The bytes of a `uint16_t`.
abbrev pub le16 : ℕ → Bytes
le16 w = w % 256 ∷ (w / 256) % 256 ∷ []

-- An array of a struct is the list of its bytes.
pub record AcknowledgementHeader : Type 0 where
  pub frame_control : ℕ
  pub duration_id : ℕ
  pub recv_address : Bytes

pub record Ieee80211Hdr : Type 0 where
  pub frame_control : ℕ
  pub duration_id : ℕ
  pub addr1 : Bytes
  pub addr2 : Bytes
  pub addr3 : Bytes
  pub seq_ctrl : ℕ

pub record RadioTapHeader : Type 0 where
  pub radiotap_version : ℕ
  pub radiotap_version_pad : ℕ
  pub bytes_in_header : ℕ
  pub present_flags : ℕ

-- The fields of a packed struct follow one another without a gap.
abbrev pub packed : List Bytes → Bytes
packed [] = []
packed (f ∷ fs) = f ++ packed fs

unfoldable pub acknowledgement_header : AcknowledgementHeader → Bytes
acknowledgement_header h = packed (le16 h.frame_control ∷ le16 h.duration_id ∷ h.recv_address ∷ [])

unfoldable pub ieee80211_hdr : Ieee80211Hdr → Bytes
ieee80211_hdr h =
    packed (
      le16 h.frame_control
      ∷ le16 h.duration_id
      ∷ h.addr1
      ∷ h.addr2
      ∷ h.addr3
      ∷ le16 h.seq_ctrl
      ∷ [])

unfoldable pub radio_tap_header : RadioTapHeader → Bytes
radio_tap_header h = packed (
    (h.radiotap_version % 256 ∷ [])
    ∷ (h.radiotap_version_pad % 256 ∷ [])
    ∷ le16 h.bytes_in_header
    ∷ le32 h.present_flags
    ∷ [])
