-- ===== src/Tests/Bridge.antt =====
-- Frames through both sides.
use cwusb.Base.{
  ℕ, ◌-◌, ◌^◌, ◌≡◌, refl, true, false, List, [], ◌∷◌, ◌++◌, none, some, Bytes, equal, length,
  replicate, get_or, map, le32, ok, err, out_of_bounds, arith, if◌then◌else◌,
}
use cwusb.Usb.{StitchPacket, async_command, async_sub_header}
use cwusb.ReceiveThread
use cwusb.ReceiveThread.{ReceiveThread}
use cwusb.SendThread
use cwusb.Reader.State.{Reader, make}
use cwusb.Reader.Transfers.{Transfer, handle_asynchronous_send}
use cwusb.Reader.Loop.{ErrorCodes, Events, run}
use cwusb.Reader.Delivery.{read_of}
use cwusb.Reader.Reading.{IsReading}
use cwusb.Reader.Running.{hello_of_check}
use cwusb.Reader.Fields.{psp_first, psp_next}
use cwusb.Reader.Stream.{PspStream, last, more}
use cwusb.Reader.Control.{send}
use cwusb.XLinkKai.Protocol.{default_ip, ethernet_data_string}
use cwusb.XLinkKai.Connection.{Addresses, Connection, to_usb, initial}
use cwusb.XLinkKai.Receive.{receive_callback}
use cwusb.XLinkKai.Receive.Ethernet.{after_frame}
use cwusb.Reader.Device.{
  Device, open_device, open_loop, open_matching, try_device, claim, handle_close, handle_error,
  psp_vid, psp_pid,
}
use cwusb.Bridge.Frames.{PspStreams, no_frames, next_frame}
use cwusb.Bridge.AfterRestart.{psp_frames_after_restart}
use cwusb.Bridge.ToPsp.{xlink_kai_frame_overflows}
use cwusb.Bridge.ManyToPsp.{receive_each, send_each, ethernet_text, xlink_kai_frames_reach_psp}
use cwusb.SendThread.{SendThread}
use cwusb.SendThread.Frames.{Streams}
use cwusb.Reader.Writing.{write_of}

abbrev addresses : Addresses
addresses = record {
  Address = ℕ;
  from_string = λ text. if equal text default_ip then some 1 else none;
  unset = 0;
}

abbrev connection : Connection addresses
unfolding initial
connection = record (initial addresses) {
  connected = true;
  incoming_connection = true;
  is_open = true;
}

abbrev bridge_reader : Reader
unfolding make ReceiveThread.make SendThread.make
bridge_reader = record (make 10 3 5 2 2) { device_handle = some 1; has_threads = true }

abbrev error_codes : ErrorCodes
error_codes = record {
  timeout = 2 ^ 32 - 7;
  busy = 2 ^ 32 - 6;
  timeout_negative = refl;
  busy_negative = refl;
}

abbrev transfer : Transfer
transfer = record { error = 0; transferred = 24; bytes = [] }

-- 500 bytes, in a full packet and one with the 12 bytes left.
abbrev frame_of_500 : Bytes
frame_of_500 = replicate 500 7

abbrev packets_of_500 : List Bytes
packets_of_500 = (psp_first 500 ++ replicate 488 7) ∷ (psp_next ++ replicate 12 7) ∷ []

stream_of_500 : PspStream (psp_first (length frame_of_500)) frame_of_500 packets_of_500
unfolding async_command async_sub_header le32
stream_of_500 =
    more (replicate 488 7) refl refl refl (omega arith)
      (last refl (omega arith) (omega arith) (omega arith))

-- A second frame, of 20 bytes.
abbrev packets_of_two : List Bytes
packets_of_two = packets_of_500 ++ ((psp_first 20 ++ replicate 20 9) ∷ [])

two_frames : PspStreams (frame_of_500 ∷ replicate 20 9 ∷ []) packets_of_two
unfolding async_command async_sub_header le32
two_frames =
    next_frame stream_of_500 (omega arith)
      (next_frame (last refl (omega arith) (omega arith) (omega arith)) (omega arith) no_frames)

-- A packet in each pass; the write of a check succeeds.
abbrev feeding : ℕ → Events
feeding i = record {
  check = record { error = 0; transferred = 4; bytes = [] };
  devices = none;
  read = read_of (get_or packets_of_two i []);
  hello_write = transfer;
  writes = λ j. transfer;
}

-- A packet of 20 bytes that waits for the PSP.
abbrev waiting : StitchPacket
waiting = record { bytes = replicate 512 5; length = 20; stitch = false }

abbrev busy_reader : Reader
unfolding make ReceiveThread.make SendThread.make bridge_reader
busy_reader = record bridge_reader {
  usb_check_successful = true;
  send_thread = record bridge_reader.send_thread { outgoing_queue = waiting ∷ [] };
}

abbrev half : StitchPacket
half = record { bytes = replicate 512 7; length = 488; stitch = true }

-- A reader that waits for the rest of a frame, whose first packet has arrived, while a frame and a
-- packet wait for the PSP.
abbrev half_read : Reader
half_read = record bridge_reader {
  receive_stitching = true;
  actual_length = 500;
  stitching_length = 488;
  receive_thread = record bridge_reader.receive_thread { queue = half ∷ [] };
  send_thread = record bridge_reader.send_thread {
    queue = record { bytes = replicate 2304 3; length = 30 } ∷ [];
    outgoing_queue = waiting ∷ [];
  };
}

abbrev psp_again : Device
psp_again = record {
  descriptor_result = 0;
  id_vendor = psp_vid;
  id_product = psp_pid;
  open_result = 0;
  handle = some 7;
  configuration_result = 0;
  claim_result = 0;
}

psp_frames_after_restart_example :
    (r' : Reader) × (t : ReceiveThread) × (run error_codes 3
        (handle_error half_read (some (psp_again ∷ [])))
        feeding
        0
      ≡ ok (r', hello_of_check ∷ []))
    × IsReading r'
    × (r'.receive_stitching ≡ false)
    × (r'.send_thread.queue ≡ [])
    × (r'.send_thread.outgoing_queue ≡ [])
    × (ReceiveThread.run_passes 3 r'.receive_thread ≡ ok (t, frame_of_500 ∷ replicate 20 9 ∷ []))
    × (t.queue ≡ [])
unfolding handle_error open_device open_loop open_matching try_device claim handle_close make
    ReceiveThread.make SendThread.make bridge_reader
psp_frames_after_restart_example =
    psp_frames_after_restart error_codes half_read (some (psp_again ∷ [])) 7 feeding
      (record { array = refl; packets = (record { array = refl; fits = omega arith }, tt) }) refl
      refl refl refl (omega arith) (omega arith) two_frames (refl, (refl, (refl, tt)))
      (record { no_error = refl; taken = refl })

-- The second is empty.
abbrev three_frames : List Bytes
three_frames = replicate 1000 7 ∷ [] ∷ replicate 20 9 ∷ []

xlink_kai_frames_reach_psp_example :
    (c' : Connection addresses) × (r' : Reader) × (cut : SendThread) × (packets : List StitchPacket)
    × (receive_each connection (λ i. i) 0 (map ethernet_text three_frames) false
        ≡ ok (c', map to_usb three_frames))
    × (send_each bridge_reader three_frames ≡ ok r')
    × (SendThread.run_passes 3 r'.send_thread ≡ ok cut)
    × Streams three_frames packets
    × ((handle_asynchronous_send (λ i. transfer) (record r' { send_thread = cut })).1
        ≡ map write_of packets)
unfolding make ReceiveThread.make SendThread.make bridge_reader initial connection
xlink_kai_frames_reach_psp_example =
    xlink_kai_frames_reach_psp connection (λ i. i) false three_frames bridge_reader (λ i. transfer)
      refl refl (omega arith, (omega arith, (omega arith, tt))) (omega arith) refl refl refl refl
      (record { no_frames = refl; no_packets = refl; room = omega arith })

xlink_kai_frame_overflows_example :
    (receive_callback connection 5 (ethernet_data_string ++ replicate 2400 7) false
      ≡ ok (after_frame connection 5 (replicate 2400 7), to_usb (replicate 2400 7) ∷ []))
    × (send bridge_reader (replicate 2400 7) ≡ err out_of_bounds)
unfolding make ReceiveThread.make SendThread.make bridge_reader initial connection
xlink_kai_frame_overflows_example =
    xlink_kai_frame_overflows connection 5 false (replicate 2400 7) bridge_reader refl refl
      (omega arith) refl (omega arith)
