-- ===== src/Tests/Receive.antt =====
-- `USBReceiveThread`.
use cwusb.Base.{ℕ, ◌≡◌, refl, Bool, true, false, [], ◌∷◌, replicate, ok, err, out_of_bounds, arith}
use cwusb.Usb.{StitchPacket, empty_stitch_wifi_packet}
use cwusb.ReceiveThread.{ReceiveThread, run_once, run_passes}
use cwusb.ReceiveThread.Message.{IsMessage, empty-IsMessage}
use cwusb.ReceiveThread.Reassembly.{run_passes-assemble, run_once-overflows}

-- A packet of `n` bytes 7.
abbrev packet_of : ℕ → Bool → StitchPacket
packet_of n stitch = record { bytes = replicate 512 7; length = n; stitch = stitch }

abbrev two_packets : ReceiveThread
two_packets = record {
  max_buffer_size = 10;
  done = false;
  last_received_message = empty_stitch_wifi_packet;
  queue = packet_of 488 true ∷ packet_of 3 false ∷ [];
  stop_request = false;
  running = true;
}

run_passes-assemble_example :
    (t' : ReceiveThread) × (run_passes 2 two_packets ≡ ok (t', replicate 491 7 ∷ []))
    × (t'.queue ≡ [])
    × IsMessage t'.last_received_message
run_passes-assemble_example =
    run_passes-assemble (packet_of 488 true ∷ packet_of 3 false ∷ []) two_packets refl refl
      empty-IsMessage
      (
        record { array = refl; fits = omega arith },
        omega arith,
        (record { array = refl; fits = omega arith }, omega arith, tt),
      )

-- 2300 bytes that wait for more.
abbrev nearly_full : StitchPacket
nearly_full = record { bytes = replicate 2304 7; length = 2300; stitch = true }

nearly_full-IsMessage : IsMessage nearly_full
nearly_full-IsMessage = record { array = refl; fits = omega arith; waiting = λ e. ground arith }

abbrev one_too_many : ReceiveThread
one_too_many = record two_packets {
  last_received_message = nearly_full;
  queue = packet_of 5 false ∷ [];
}

run_once-overflows_example : run_once one_too_many ≡ err out_of_bounds
run_once-overflows_example =
    run_once-overflows one_too_many (packet_of 5 false) [] refl nearly_full-IsMessage
      (record { array = refl; fits = omega arith }) (omega arith)
