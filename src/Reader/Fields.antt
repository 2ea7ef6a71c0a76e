-- ===== src/Reader/Fields.antt =====
-- What the reader finds in a buffer that starts with the headers of a packet from the PSP.
use cwusb.Base.{
  ℕ, ◌+◌, ◌-◌, ◌%◌, ◌^◌, ◌≤◌, ◌<◌, ◌≡◌, refl, ap, ◌∙◌, Bool, ◌++◌, Bytes, length, take, drop,
  length-append, length-replicate, ok, copied, memcpy_in_bounds, length-copied, take-copied, get32,
  le32, sub32, arith,
}
use cwusb.Usb.{
  StitchPacket, empty_usb_packet, asynchronous, debug_print, async_command, async_sub_header,
  async_mode_packet, async_command_send_packet, async_user_channel, length-async_command,
  length-async_sub_header,
}
use cwusb.ReceiveThread.Message.{IsUsbPacket, contents}
use cwusb.Reader.Receive.{copy_packet, is_debug_print_command}

-- The headers of the PSP: of the packets behind the first of a frame, and of the first, which
-- tells the frame's size.
abbrev pub psp_next : Bytes
psp_next = async_command asynchronous async_user_channel

abbrev pub sub_header : ℕ → Bytes
sub_header n = async_sub_header debug_print async_mode_packet n async_command_send_packet

abbrev pub psp_first : ℕ → Bytes
psp_first n = psp_next ++ sub_header n

pub length_psp_next : length psp_next ≡ 8
length_psp_next = length-async_command asynchronous async_user_channel

pub length_psp_first : (n : ℕ) → length (psp_first n) ≡ 24
length_psp_first n = omega (
  arith,
  length-append psp_next
      (async_sub_header debug_print async_mode_packet n async_command_send_packet),
  length_psp_next,
  length-async_sub_header debug_print async_mode_packet n async_command_send_packet,
)

module _ (rest : Bytes) where
  pub get32_magic : get32 (psp_next ++ rest) 0 ≡ asynchronous
  unfolding get32 async_command le32
  get32_magic = refl

  pub get32_channel : get32 (psp_next ++ rest) 4 ≡ async_user_channel
  unfolding get32 async_command le32
  get32_channel = refl

  pub get32_size : (n : ℕ) → n < 2 ^ 32 → get32 (psp_first n ++ rest) 16 ≡ n
  unfolding get32 async_command async_sub_header le32
  get32_size n h = omega arith

  pub is_debug_print_command_first :
      (n k : ℕ) → 24 < k → is_debug_print_command (psp_first n ++ rest) k ≡ async_mode_packet
  unfolding is_debug_print_command get32 async_command async_sub_header le32
  is_debug_print_command_first n k h = ground arith

-- The copied packet holds exactly the bytes of the buffer between its two ends.
module _ (buffer : Bytes) (from n : ℕ) (stitch : Bool) where
  pub packet : StitchPacket
  packet = record {
    bytes = copied empty_usb_packet.bytes 0 buffer from (n - from);
    length = n - from;
    stitch = stitch;
  }

  pub stitch-packet : packet.stitch ≡ stitch
  unfolding packet
  stitch-packet = refl

  pub length-packet : packet.length ≡ n - from
  unfolding packet
  length-packet = refl

  module _ (size : length buffer ≡ 512) (h : from ≤ n) (k : n ≤ 512) where
    pub copy_packet-packet : copy_packet buffer from n stitch ≡ ok packet
    unfolding copy_packet packet
    copy_packet-packet =
        let count : sub32 n from % 2 ^ 16 ≡ n - from = omega arith in
        rw (
          count,
          memcpy_in_bounds empty_usb_packet.bytes 0 buffer from (n - from)
              (omega (arith, length-replicate {A = ℕ} 512 0)) (omega arith),
        )

    pub packet-IsUsbPacket : IsUsbPacket packet
    unfolding packet
    packet-IsUsbPacket = record {
      array =
          length-copied empty_usb_packet.bytes 0 buffer from (n - from)
            (omega (arith, length-replicate {A = ℕ} 512 0)) (omega arith)
          ∙ length-replicate {A = ℕ} 512 0;
      fits = omega arith;
    }

    pub contents-packet : contents packet ≡ take (n - from) (drop from buffer)
    unfolding packet
    contents-packet =
        ap (λ k. take k (copied empty_usb_packet.bytes 0 buffer from (n - from))) {x = n - from}
          {y = 0 + (n - from)} (omega arith)
        ∙ take-copied empty_usb_packet.bytes 0 buffer from (n - from)
            (omega (arith, length-replicate {A = ℕ} 512 0)) (omega arith)
