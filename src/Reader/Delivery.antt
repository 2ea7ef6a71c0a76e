-- ===== src/Reader/Delivery.antt =====
-- `USBReader::HandleAsynchronous` on one packet of a frame from the PSP.
use cwusb.Base.{
  take_middle, ℕ, ◌+◌, ◌-◌, ◌^◌, ◌≤◌, ◌<◌, ◌≡◌, sym, ap, ◌∙◌, Bool, true, false, ◌&&◌, [], ◌++◌,
  append_assoc, Bytes, length, take, drop, some, ok, get32, ltb, if◌then◌else◌, arith,
}
use cwusb.Usb.{StitchPacket}
use cwusb.ReceiveThread.{add_to_queue}
use cwusb.ReceiveThread.Message.{IsUsbPacket, contents}
use cwusb.Reader.State.{Reader}
use cwusb.Reader.Transfers.{Transfer, usb_bulk_read}
use cwusb.Reader.Receive.{
  copy_packet, is_debug_print_command, handle_asynchronous, receive_callback,
}
use cwusb.Reader.Loop.{ErrorCodes, read_packet}
use cwusb.Reader.Fields.{
  psp_next, psp_first, sub_header, length_psp_next, length_psp_first, get32_magic, get32_channel,
  get32_size, is_debug_print_command_first, packet, stitch-packet, length-packet,
  copy_packet-packet, packet-IsUsbPacket, contents-packet,
}

-- A read of one whole packet.
abbrev pub read_of : Bytes → Transfer
read_of w = record { error = 0; transferred = length w; bytes = w }

-- The device is open, and its buffer is the array of 512 bytes.
pub record IsOpen (r : Reader) : Type 0 where
  pub handle : ℕ
  pub is_open : r.device_handle ≡ some handle
  pub array : length r.temporary_receive_buffer ≡ 512

-- The reader with the packet in its buffer.
abbrev pub loaded : Reader → Bytes → Reader
loaded r w = record r {
  temporary_receive_buffer = w ++ drop (length w) r.temporary_receive_buffer;
  length = length w;
  retry_counter = 0;
}

pub read_packet-loaded :
    (codes : ErrorCodes) (r : Reader) (w : Bytes) (t : Transfer)
    → IsOpen r
    → 0 < length w
    → length w ≤ 512
    → read_packet codes r (read_of w) t ≡ receive_callback (loaded r w) t
unfolding read_packet usb_bulk_read
read_packet-loaded codes r w t o pos small = ground (arith, o.is_open)

-- A packet with the magic and the channel of the user's data goes to the stitching code.
pub receive_callback-async :
    (r : Reader) (rest : Bytes) (t : Transfer) {r' : Reader}
    → r.temporary_receive_buffer ≡ psp_next ++ rest
    → 12 ≤ r.length
    → r.length ≤ 512
    → handle_asynchronous r r.length ≡ ok r'
    → receive_callback r t ≡ ok (record r' { length = 0 }, [])
unfolding receive_callback
receive_callback-async r rest t b long short e =
    ground (arith, e, ap (λ x. get32 x 0) b ∙ get32_magic rest)

-- A packet for the receive thread, made from the buffer.
pub record IsCopy (chunk : Bytes) (stitch : Bool) (p : StitchPacket) : Type 0 where
  pub valid : IsUsbPacket p
  pub holds : contents p ≡ chunk
  pub flag : p.stitch ≡ stitch

copied_packet :
    (buffer h chunk tail : Bytes) (from n : ℕ) (stitch : Bool)
    → buffer ≡ h ++ (chunk ++ tail)
    → length buffer ≡ 512
    → from ≡ length h
    → n ≡ from + length chunk
    → n ≤ 512
    → (p : StitchPacket) × (copy_packet buffer from n stitch ≡ ok p)
      × IsCopy chunk stitch p
      × (p.length ≡ length chunk)
copied_packet buffer h chunk tail from n stitch b size e k small = (
  packet buffer from n stitch,
  copy_packet-packet buffer from n stitch size (omega arith) small,
  record {
    valid = packet-IsUsbPacket buffer from n stitch size (omega arith) small;
    holds =
        contents-packet buffer from n stitch size (omega arith) small
        ∙ ap (λ x. take (n - from) (drop from x)) b
        ∙ take_middle h chunk tail from (n - from) e (omega arith);
    flag = stitch-packet buffer from n stitch;
  },
  length-packet buffer from n stitch ∙ omega arith,
)

-- The flag that the reader computes for a packet behind the first.
abbrev pub goes_on_stitching : Reader → ℕ → Bytes → Bool
goes_on_stitching r n chunk = ltb 504 n && ltb (r.stitching_length + length chunk) r.actual_length

module _ (r : Reader) (chunk tail : Bytes) (n : ℕ) (size : length r.temporary_receive_buffer ≡ 512)
    (small : n ≤ 512) where
  pub handle_asynchronous-next :
      r.receive_stitching ≡ true
      → r.temporary_receive_buffer ≡ psp_next ++ (chunk ++ tail)
      → n ≡ 8 + length chunk
      → r.stitching_length + length chunk ≤ r.actual_length
      → r.actual_length < 2 ^ 31
      → let stitch = goes_on_stitching r n chunk in
        (p : StitchPacket) × (handle_asynchronous r n
          ≡ ok (record r {
            stitching_length = if stitch then r.stitching_length + length chunk else 0;
            receive_stitching = stitch;
            receive_thread = (add_to_queue r.receive_thread p).0;
          }))
        × IsCopy chunk stitch p
  unfolding handle_asynchronous
  handle_asynchronous-next on b e within bound =
      let (p, copies, good, _) =
        copied_packet r.temporary_receive_buffer psp_next chunk tail 8 n
          (goes_on_stitching r n chunk) b size (sym length_psp_next) e small in
      (p, ground (arith, copies, ap (λ x. get32 x 4) b ∙ get32_channel (chunk ++ tail)), good)

  pub handle_asynchronous-first :
      (total : ℕ)
      → r.receive_stitching ≡ false
      → r.temporary_receive_buffer ≡ psp_first total ++ (chunk ++ tail)
      → n ≡ 24 + length chunk
      → 0 < length chunk
      → total < 2 ^ 31
      → let stitch = ltb 488 total in
        (p : StitchPacket) × (handle_asynchronous r n
          ≡ ok (record r {
            actual_length = total;
            receive_stitching = stitch;
            stitching_length = if stitch then length chunk else r.stitching_length;
            receive_thread = (add_to_queue r.receive_thread p).0;
          }))
        × IsCopy chunk stitch p
  unfolding handle_asynchronous
  handle_asynchronous-first total off b e pos bound =
      let rest : Bytes = chunk ++ tail in
      let (p, copies, good, len) =
        copied_packet r.temporary_receive_buffer (psp_first total) chunk tail 24 n (ltb 488 total) b
          size (sym (length_psp_first total)) e small in
      (
        p,
        ground (
          arith,
          copies,
          len,
          ap (λ x. get32 x 4) b
              ∙ ap (λ x. get32 x 4) (append_assoc psp_next (sub_header total) rest)
              ∙ get32_channel (sub_header total ++ rest),
          ap (λ x. is_debug_print_command x n) b
              ∙ is_debug_print_command_first rest total n (omega arith),
          ap (λ x. get32 x 16) b ∙ get32_size rest total (omega arith),
        ),
        good,
      )
