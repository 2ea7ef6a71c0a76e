-- ===== src/SendThread.antt =====
-- Sources/USBSendThead.cpp: `USBSendThread` cuts an Ethernet frame into USB packets for the PSP.
-- A method that runs under the mutex is one step. The two queues hold their front first.
pub mod Packets
pub mod Cutting
pub mod Frames
pub mod Interleaving
pub mod Count
use cwusb.Base.{
  ℕ, zero, suc, ◌+◌, ◌-◌, ◌%◌, ◌^◌, Bool, true, false, List, [], ◌∷◌, ◌++◌, Option, none, some,
  Bytes, length, Result, ok, err, out_of_fuel, ◌>>=◌, memcpy, to_size, ltb, ◌==◌, if◌then◌else◌,
}
use cwusb.Usb.{
  WifiPacket, StitchPacket, empty_wifi_packet, empty_usb_packet, max_usb_packet_size, asynchronous,
  async_header_size, async_sub_header_size, async_header_and_sub_header_size, async_user_channel,
  async_command, async_sub_header, debug_print,
}

pub record SendThread : Type 0 where
  pub max_buffer_size : ℕ
  pub done : Bool
  pub last_received_packet : WifiPacket
  pub queue : List WifiPacket
  pub outgoing_queue : List StitchPacket
  pub stop_request : Bool
  pub running : Bool

unfoldable pub make : ℕ → SendThread
make max_buffer_size = record {
  max_buffer_size = max_buffer_size;
  done = true;
  last_received_packet = empty_wifi_packet;
  queue = [];
  outgoing_queue = [];
  stop_request = false;
  running = false;
}

-- `lHeaderLength` at a packet index
abbrev pub header_length : ℕ → ℕ
header_length index = if index == 0 then async_header_and_sub_header_size else async_header_size

-- `lPacket.stitch`: more is left than fits
abbrev pub must_stitch : WifiPacket → ℕ → Bool
must_stitch front index = ltb (max_usb_packet_size - header_length index) (front.length - index)

-- `lLength`
abbrev pub payload_length : WifiPacket → ℕ → ℕ
payload_length front index =
    if must_stitch front index
    then max_usb_packet_size - header_length index
    else front.length - index

-- The sub-header of the first packet, and how far the packet is filled then.
unfoldable pub add_sub_header : WifiPacket → ℕ → Bytes → Result (Bytes × ℕ)
add_sub_header front index bytes =
    if index == 0
    then (do
      bytes' ←
          memcpy bytes async_header_size (async_sub_header debug_print 3 front.length 0) 0
            async_sub_header_size
      ok (bytes', async_header_size + async_sub_header_size))
    else ok (bytes, async_header_size)

-- One round of the loop: the packet that starts at byte `index` of the frame.
unfoldable pub make_packet : WifiPacket → ℕ → Result StitchPacket
make_packet front index = do
  bytes ←
      memcpy empty_usb_packet.bytes 0 (async_command asynchronous async_user_channel) 0
        async_header_size
  (bytes', size) ← add_sub_header front index bytes
  let n = payload_length front index
  bytes'' ← memcpy bytes' size front.bytes index n
  ok (record { bytes = bytes''; length = size + n; stitch = must_stitch front index })

-- `while (lPacketIndex < lFrontOfQueue.length)`, with what it appends to the outgoing queue.
unfoldable pub make_packets : ℕ → WifiPacket → ℕ → List StitchPacket → Result (List StitchPacket)
make_packets zero front index outgoing = err out_of_fuel
make_packets (suc fuel) front index outgoing = elim (ltb index front.length) [
  | true ↦ make_packet front index >>= λ p.
      make_packets fuel front (index + payload_length front index) (outgoing ++ (p ∷ []))
  | false ↦ ok outgoing
]

-- One pass of the thread's loop.
unfoldable pub run_once : SendThread → Result SendThread
run_once s = elim s.queue [
  | [] ↦ ok s
  | front ∷ rest ↦ make_packets (front.length + 1) front 0 s.outgoing_queue >>= λ outgoing.
      ok (record s { queue = rest; last_received_packet = front; outgoing_queue = outgoing })
]

-- `while (!mStopRequest)`, for as many passes as the thread gets to make.
unfoldable pub run_passes : ℕ → SendThread → Result SendThread
run_passes zero s = ok s
run_passes (suc n) s = elim s.stop_request [
  | true ↦ ok s
  | false ↦ run_once s >>= λ s'. run_passes n s'
]

-- `mDone` is set again before the method returns.
unfoldable pub start_thread : SendThread → SendThread × Bool
start_thread s = (if s.running then s else record s { done = true; running = true }, true)

unfoldable pub clear_queues : SendThread → SendThread
clear_queues s = record s {
  queue = [];
  outgoing_queue = [];
  last_received_packet = empty_wifi_packet;
}

-- `none` is the wait for a `mDone` that is never set.
unfoldable pub stop_thread : SendThread → Option SendThread
unfolding clear_queues
stop_thread s =
    if s.done
    then some (record (clear_queues (record s { stop_request = true })) { running = false })
    else none

unfoldable pub add_to_queue : SendThread → Bytes → Result (SendThread × Bool)
add_to_queue s frame =
    if ltb (length s.queue) (to_size s.max_buffer_size)
    then (do
      bytes ← memcpy empty_wifi_packet.bytes 0 frame 0 (length frame)
      ok (
        record s {
          queue = s.queue ++ (record { bytes = bytes; length = length frame % 2 ^ 16 } ∷ []);
        },
        true,
      ))
    else ok (s, false)

unfoldable pub has_outgoing_data : SendThread → Bool
has_outgoing_data s = elim s.outgoing_queue [ [] ↦ false | p ∷ ps ↦ true ]

unfoldable pub pop_from_outgoing_queue : SendThread → SendThread × StitchPacket
pop_from_outgoing_queue s = elim s.outgoing_queue [
  | [] ↦ (s, empty_usb_packet)
  | p ∷ ps ↦ (record s { outgoing_queue = ps }, p)
]
