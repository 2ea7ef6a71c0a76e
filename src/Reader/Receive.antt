-- ===== src/Reader/Receive.antt =====
-- What `USBReader` does with a packet that it has read into its buffer.
use cwusb.Base.{
  ℕ, ◌+◌, ◌-◌, ◌%◌, ◌^◌, Bool, true, ◌&&◌, List, [], Bytes, Result, ok, ◌>>=◌, memcpy, get32, add32,
  sub32, int_lt, ltb, leb, ◌==◌, if◌then◌else◌,
}
use cwusb.Usb.{
  StitchPacket, empty_usb_packet, max_usb_packet_size, host_fs, hello, asynchronous, debug_print,
  host_fs_header_size, async_header_size, async_header_and_sub_header_size, async_mode_debug,
  async_mode_packet, async_command_send_packet, async_user_channel,
}
use cwusb.ReceiveThread.{add_to_queue}
use cwusb.Reader.State.{Reader}
use cwusb.Reader.Transfers.{Transfer, Write, send_hello}

-- `IsDebugPrintCommand` on the buffer: the mode of a debug print command, or 0.
unfoldable pub is_debug_print_command : Bytes → ℕ → ℕ
is_debug_print_command bytes n =
    if ltb async_header_and_sub_header_size n
    then (if get32 bytes async_header_size == debug_print
        then (if get32 bytes (async_header_size + 4) == async_mode_packet
              && get32 bytes (async_header_size + 12) == async_command_send_packet
            then async_mode_packet
            else if get32 bytes (async_header_size + 4) == async_mode_debug
            then async_mode_debug
            else 0)
        else 0)
    else 0

-- The part of the buffer from `from` up to `n`, as a packet for the receive thread.
unfoldable pub copy_packet : Bytes → ℕ → ℕ → Bool → Result StitchPacket
copy_packet buffer from n stitch =
    let count = sub32 n from % 2 ^ 16 in
    memcpy empty_usb_packet.bytes 0 buffer from count >>= λ bytes.
    ok (record { bytes = bytes; length = count; stitch = stitch })

-- The first packet of a frame, `case cAsyncModePacket`.
unfoldable pub handle_first : Reader → ℕ → Result Reader
handle_first r n =
    let size = get32 r.temporary_receive_buffer (async_header_size + 8) in
    let stitch = ltb (max_usb_packet_size - async_header_and_sub_header_size) size in
    copy_packet r.temporary_receive_buffer async_header_and_sub_header_size n stitch >>= λ packet.
    ok (record r {
      actual_length = size;
      receive_stitching = stitch;
      stitching_length = if stitch then packet.length else r.stitching_length;
      receive_thread = (add_to_queue r.receive_thread packet).0;
    })

-- A packet while a frame is being stitched.
unfoldable pub handle_next : Reader → ℕ → Result Reader
handle_next r n =
    let total = add32 r.stitching_length (sub32 n async_header_size) in
    let stitch = ltb (max_usb_packet_size - async_header_size) n && int_lt total r.actual_length in
    copy_packet r.temporary_receive_buffer async_header_size n stitch >>= λ packet. ok (record r {
      stitching_length = if stitch then total else 0;
      receive_stitching = stitch;
      receive_thread = (add_to_queue r.receive_thread packet).0;
    })

-- `HandleAsynchronous`; what is only logged leaves the reader as it is.
unfoldable pub handle_asynchronous : Reader → ℕ → Result Reader
unfolding handle_first handle_next copy_packet is_debug_print_command
handle_asynchronous r n =
    if get32 r.temporary_receive_buffer 4 == async_user_channel
    then (if r.receive_stitching
        then handle_next r n
        else if is_debug_print_command r.temporary_receive_buffer n == async_mode_packet
        then handle_first r n
        else ok r)
    else ok r

-- `case HostFS`
unfoldable pub handle_host_fs : Reader → Transfer → Reader × List Write
handle_host_fs r t =
    if get32 r.temporary_receive_buffer 4 == hello
    then (r, (send_hello r t).1)
    else (record r { error = true }, [])

-- The switch on the magic.
unfoldable pub dispatch : Reader → Transfer → Result (Reader × List Write)
dispatch r t =
    let magic = get32 r.temporary_receive_buffer 0 in
    if magic == host_fs
    then ok (handle_host_fs r t)
    else if magic == asynchronous
    then (handle_asynchronous r r.length >>= λ r'. ok (r', []))
    else ok (r, [])

unfoldable pub receive_callback : Reader → Transfer → Result (Reader × List Write)
unfolding dispatch handle_host_fs
receive_callback r t =
    (if leb host_fs_header_size r.length then dispatch r t else ok (r, [])) >>= λ (r', writes).
    ok (record r' { length = 0 }, writes)
