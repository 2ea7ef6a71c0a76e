-- ===== src/Tests/Send.antt =====
-- `USBSendThread`.
use cwusb.Base.{
  ℕ, ◌≡◌, refl, true, false, List, [], ◌∷◌, ◌++◌, map, length, replicate, Result, ok, err,
  out_of_bounds, memcpy, le32, arith,
}
use cwusb.Usb.{StitchPacket, WifiPacket, async_command, async_sub_header}
use cwusb.SendThread.{
  SendThread, add_sub_header, make_packet, make_packets, run_passes, add_to_queue,
}
use cwusb.SendThread.Packets.{IsFrame}
use cwusb.SendThread.Cutting.{frame_of}
use cwusb.SendThread.Frames.{
  Streams, add_to_queue-overflows, run_passes-Streams, make_packets-count,
}

-- 1000 bytes in the array of a `BinaryWiFiPacket`.
abbrev front : WifiPacket
front = record { bytes = replicate 1000 7 ++ replicate 1304 0; length = 1000 }

front-IsFrame : IsFrame front
front-IsFrame = record { array = refl; fits = omega arith }

packet_lengths : List StitchPacket → List ℕ
packet_lengths = map λ p. p.length

lengths_of : Result (List StitchPacket) → List ℕ
lengths_of (ok ps) = packet_lengths ps
lengths_of (err f) = []

three_packets : lengths_of (make_packets 4 front 0 []) ≡ 512 ∷ 512 ∷ 16 ∷ []
unfolding lengths_of packet_lengths make_packets make_packet memcpy async_command async_sub_header
    le32 add_sub_header
three_packets = refl

abbrev loaded : SendThread
loaded = record {
  max_buffer_size = 10;
  done = true;
  last_received_packet = front;
  queue = front ∷ [];
  outgoing_queue = [];
  stop_request = false;
  running = true;
}

run_passes-Streams_example :
    (s' : SendThread) × (ps : List StitchPacket) × (run_passes 1 loaded ≡ ok s')
    × (s'.queue ≡ [])
    × (s'.outgoing_queue ≡ ps)
    × Streams (frame_of front ∷ []) ps
run_passes-Streams_example = run_passes-Streams (front ∷ []) loaded refl refl (front-IsFrame, tt)

make_packets-count_example :
    (ps : List StitchPacket) × (make_packets 1001 front 0 [] ≡ ok ps) × (length ps ≡ 3)
make_packets-count_example = make_packets-count front [] front-IsFrame (omega arith)

add_to_queue-overflows_example : add_to_queue loaded (replicate 2305 7) ≡ err out_of_bounds
add_to_queue-overflows_example =
    add_to_queue-overflows loaded (replicate 2305 7) (omega arith) (omega arith)
