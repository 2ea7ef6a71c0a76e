-- ===== src/SendThread/Packets.antt =====
-- One packet of `USBSendThread::StartThread`: which bytes `make_packet` puts on the wire.
use cwusb.Base.{
  ℕ, zero, suc, ◌+◌, ◌≤◌, ◌<◌, ◌≡◌, refl, ap, ◌∙◌, false, ◌++◌, Bytes, length, take, drop,
  length-append, take_all, ok, memcpy, copied, memcpy_in_bounds, length-copied, take-copied, ◌==◌,
  if◌then◌else◌, arith,
}
use cwusb.Usb.{
  WifiPacket, StitchPacket, empty_usb_packet, max_usb_packet_size, max_asynchronous_buffer,
  asynchronous, async_user_channel, async_command, async_sub_header, debug_print,
  length-async_command, length-async_sub_header,
}
use cwusb.SendThread.{header_length, must_stitch, payload_length, add_sub_header, make_packet}

-- The bytes of a packet that count.
abbrev pub wire : StitchPacket → Bytes
wire p = take p.length p.bytes

abbrev pub continuation_header : Bytes
continuation_header = async_command asynchronous async_user_channel

-- The headers of the first packet of a frame of `n` bytes.
abbrev pub first_header : ℕ → Bytes
first_header n = continuation_header ++ async_sub_header debug_print 3 n 0

abbrev pub header : ℕ → ℕ → Bytes
header n index = if index == 0 then first_header n else continuation_header

-- A frame in its array of 2304 bytes.
pub record IsFrame (front : WifiPacket) : Type 0 where
  pub array : length front.bytes ≡ max_asynchronous_buffer
  pub fits : front.length ≤ max_asynchronous_buffer

-- What `make_packet` makes of the frame from byte `index` on.
pub record IsPacket (front : WifiPacket) (index : ℕ) (p : StitchPacket) : Type 0 where
  pub array : length p.bytes ≡ max_usb_packet_size
  pub sized : p.length ≡ header_length index + payload_length front index
  pub flag : p.stitch ≡ must_stitch front index
  pub sent :
      wire p
      ≡ header front.length index ++ take (payload_length front index) (drop index front.bytes)

abbrev zeros : Bytes
zeros = empty_usb_packet.bytes

pub length_header : length continuation_header ≡ 8
length_header = length-async_command asynchronous async_user_channel

pub length_first_header : (n : ℕ) → length (first_header n) ≡ 24
length_first_header n = omega (
  arith,
  length-append continuation_header (async_sub_header debug_print 3 n 0),
  length_header,
  length-async_sub_header debug_print 3 n 0,
)

-- How the packet stands before the payload is copied into it.
record IsHeaded (n index : ℕ) (bytes : Bytes) : Type 0 where
  size : length bytes ≡ 512
  headed : take (header_length index) bytes ≡ header n index

with_command : Bytes
with_command = copied zeros 0 continuation_header 0 8

length-with_command : length with_command ≡ 512
unfolding with_command
length-with_command =
    length-copied zeros 0 continuation_header 0 8 (omega arith) (omega (arith, length_header))

take-with_command : take 8 with_command ≡ continuation_header
unfolding with_command
take-with_command =
    take-copied zeros 0 continuation_header 0 8 (omega arith) (omega (arith, length_header))
    ∙ take_all continuation_header 8 (omega (arith, length_header))

with_sub_header : ℕ → Bytes
with_sub_header n = copied with_command 8 (async_sub_header debug_print 3 n 0) 0 16

with_sub_header-IsHeaded : (n : ℕ) → IsHeaded n 0 (with_sub_header n)
unfolding with_sub_header
with_sub_header-IsHeaded n = record {
  size = length-copied with_command 8 sub 0 16 room held ∙ length-with_command;
  headed =
      take-copied with_command 8 sub 0 16 room held
      ∙ ap (λ h. h ++ take 16 sub) take-with_command
      ∙ ap (λ t. continuation_header ++ t) (take_all sub 16 (omega (arith, len)));
}
  where
    sub : Bytes
    sub = async_sub_header debug_print 3 n 0

    len : length sub ≡ 16
    len = length-async_sub_header debug_print 3 n 0

    room : 24 ≤ length with_command
    room = omega (arith, length-with_command)

    held : 0 + 16 ≤ length sub
    held = omega (arith, len)

suc_is_not_first : (i : ℕ) → (suc i == 0) ≡ false
suc_is_not_first i = ground arith

with_command-IsHeaded : (n i : ℕ) → IsHeaded n (suc i) with_command
with_command-IsHeaded n i = record {
  size = length-with_command;
  headed = rw (suc_is_not_first i) take-with_command;
}

-- The payload goes behind the headers.
filled-IsPacket :
    {front : WifiPacket} {index : ℕ} (bytes : Bytes)
    → IsFrame front
    → index < front.length
    → IsHeaded front.length index bytes
    → let n = payload_length front index in
      (memcpy bytes (header_length index) front.bytes index n
        ≡ ok (copied bytes (header_length index) front.bytes index n))
      × IsPacket front index (record {
        bytes = copied bytes (header_length index) front.bytes index n;
        length = header_length index + n;
        stitch = must_stitch front index;
      })
filled-IsPacket {front} {index} bytes f lt h = (
  memcpy_in_bounds bytes (header_length index) front.bytes index n room held,
  record {
    array = length-copied bytes (header_length index) front.bytes index n room held ∙ h.size;
    sized = refl;
    flag = refl;
    sent =
        take-copied bytes (header_length index) front.bytes index n room held
        ∙ ap (λ t. t ++ take n (drop index front.bytes)) h.headed;
  },
)
  where
    n : ℕ
    n = payload_length front index

    room : header_length index + n ≤ length bytes
    room = ground arith

    held : index + n ≤ length front.bytes
    held = ground arith

-- Every round of the loop stays inside both arrays, and makes the packet that `IsPacket` describes.
pub make_packet-IsPacket :
    (front : WifiPacket) (index : ℕ)
    → IsFrame front
    → index < front.length
    → (p : StitchPacket) × (make_packet front index ≡ ok p) × IsPacket front index p
unfolding make_packet add_sub_header with_sub_header with_command
make_packet-IsPacket front zero f lt =
    let (copies, good) =
      filled-IsPacket (with_sub_header front.length) f lt (with_sub_header-IsHeaded front.length) in
    (
      _,
      rw (
        memcpy_in_bounds zeros 0 continuation_header 0 8 (omega arith)
            (omega (arith, length_header)),
        memcpy_in_bounds with_command 8 (async_sub_header debug_print 3 front.length 0) 0 16
            (omega (arith, length-with_command))
            (omega (arith, length-async_sub_header debug_print 3 front.length 0)),
        copies,
      ),
      good,
    )
make_packet-IsPacket front (suc i) f lt =
    let (copies, good) = filled-IsPacket with_command f lt (with_command-IsHeaded front.length i) in
    (
      _,
      rw (
        memcpy_in_bounds zeros 0 continuation_header 0 8 (omega arith)
            (omega (arith, length_header)),
        suc_is_not_first i,
        rw (suc_is_not_first i) at copies,
      ),
      good,
    )
