-- ===== src/Reader/Safety.antt =====
-- `USBReader::HandleAsynchronous` on any bytes, and the arrays that it copies between.
use cwusb.Base.{
  ℕ, ◌≤◌, ◌≡◌, ◌⊎◌, inl, inr, Bool, true, ◌&&◌, Bytes, length, ok, add32, sub32, get32, int_lt, ltb,
  ◌==◌, if◌then◌else◌, Bool-cases, arith,
}
use cwusb.Usb.{StitchPacket, async_mode_packet, async_user_channel}
use cwusb.ReceiveThread.{ReceiveThread, add_to_queue}
use cwusb.ReceiveThread.Message.{IsUsbPacket, AllUsb, AllUsb-append}
use cwusb.Reader.State.{Reader}
use cwusb.Reader.Transfers.{Transfer}
use cwusb.Reader.Receive.{
  is_debug_print_command, copy_packet, handle_first, handle_next, handle_asynchronous,
}
use cwusb.Reader.Fields.{packet, copy_packet-packet, packet-IsUsbPacket}

-- The buffer is the array of 512 bytes, and every packet for the receive thread is well formed.
pub record IsSafe (r : Reader) : Type 0 where
  pub array : length r.temporary_receive_buffer ≡ 512
  pub packets : AllUsb r.receive_thread.queue

-- What libusb documents of a read of at most 512 bytes: it stores and counts no more than that, and
-- its errors are negative.
pub record IsRead (t : Transfer) : Type 0 where
  pub stores : length t.bytes ≤ 512
  pub counts : t.transferred ≤ 512
  pub errors : (t.error ≡ 0) ⊎ (int_lt t.error 0 ≡ true)

add_to_queue-AllUsb :
    (t : ReceiveThread) (p : StitchPacket)
    → AllUsb t.queue
    → IsUsbPacket p
    → AllUsb (add_to_queue t p).0.queue
unfolding add_to_queue
add_to_queue-AllUsb t p us u = ground (arith, AllUsb-append t.queue p us u)

copy_packet-IsUsbPacket :
    (buffer : Bytes) (from n : ℕ) (stitch : Bool)
    → length buffer ≡ 512
    → from ≤ n
    → n ≤ 512
    → (p : StitchPacket) × (copy_packet buffer from n stitch ≡ ok p) × IsUsbPacket p
copy_packet-IsUsbPacket buffer from n stitch size h k = (
  packet buffer from n stitch,
  copy_packet-packet buffer from n stitch size h k,
  packet-IsUsbPacket buffer from n stitch size h k,
)

module _ (r : Reader) (n : ℕ) (s : IsSafe r) (small : n ≤ 512) where
  handle_first-IsSafe : 24 ≤ n → (r' : Reader) × (handle_first r n ≡ ok r') × IsSafe r'
  unfolding handle_first
  handle_first-IsSafe long =
      let size = get32 r.temporary_receive_buffer 16 in
      let stitch = ltb 488 size in
      let (p, copies, u) =
        copy_packet-IsUsbPacket r.temporary_receive_buffer 24 n stitch s.array long small in
      let r' : Reader = record r {
        actual_length = size;
        receive_stitching = stitch;
        stitching_length = if stitch then p.length else r.stitching_length;
        receive_thread = (add_to_queue r.receive_thread p).0;
      } in
      (
        r',
        ground (arith, copies),
        record { array = s.array; packets = add_to_queue-AllUsb r.receive_thread p s.packets u },
      )

  handle_next-IsSafe : 8 ≤ n → (r' : Reader) × (handle_next r n ≡ ok r') × IsSafe r'
  unfolding handle_next
  handle_next-IsSafe long =
      let total = add32 r.stitching_length (sub32 n 8) in
      let stitch = ltb 504 n && int_lt total r.actual_length in
      let (p, copies, u) =
        copy_packet-IsUsbPacket r.temporary_receive_buffer 8 n stitch s.array long small in
      let r' : Reader = record r {
        stitching_length = if stitch then total else 0;
        receive_stitching = stitch;
        receive_thread = (add_to_queue r.receive_thread p).0;
      } in
      (
        r',
        ground (arith, copies),
        record { array = s.array; packets = add_to_queue-AllUsb r.receive_thread p s.packets u },
      )

  is_debug_print_command-long :
      (buffer : Bytes) → is_debug_print_command buffer n == async_mode_packet ≡ true → 24 ≤ n
  unfolding is_debug_print_command
  is_debug_print_command-long buffer h = ground arith

  pub handle_asynchronous-IsSafe :
      12 ≤ n → (r' : Reader) × (handle_asynchronous r n ≡ ok r') × IsSafe r'
  unfolding handle_asynchronous
  handle_asynchronous-IsSafe long =
      let debug = is_debug_print_command r.temporary_receive_buffer n == async_mode_packet in
      elim (Bool-cases (get32 r.temporary_receive_buffer 4 == async_user_channel)) [
        | inr other ↦ (r, ground arith, s)
        | inl user ↦ elim (Bool-cases r.receive_stitching) [
          | inl on ↦
              let (r', e, s') = handle_next-IsSafe (omega arith) in (r', ground (arith, e), s')
          | inr off ↦ elim (Bool-cases debug) [
            | inr no_packet ↦ (r, ground arith, s)
            | inl a_packet ↦
                let (r', e, s') =
                  handle_first-IsSafe
                    (is_debug_print_command-long r.temporary_receive_buffer a_packet) in
                (r', ground (arith, e), s')
          ]
        ]
      ]
