-- ===== src/Tests/Together.antt =====
-- What comes of a schedule of the four threads, and of a full queue.
use cwusb.Base.{
  ◌-◌, ◌^◌, ◌≡◌, refl, true, false, List, [], ◌∷◌, ◌++◌, none, Bytes, length, replicate, map, le32,
  ok, arith,
}
use cwusb.Usb.{StitchPacket, async_command}
use cwusb.ReceiveThread
use cwusb.ReceiveThread.{ReceiveThread, stitch_onto, send_off}
use cwusb.ReceiveThread.Message.{IsMessage, empty-IsMessage}
use cwusb.SendThread.Cutting.{frame_of}
use cwusb.SendThread.Frames.{Streams}
use cwusb.Reader.State.{Reader}
use cwusb.Reader.Loop
use cwusb.Reader.Loop.{ErrorCodes}
use cwusb.Reader.Delivery.{read_of}
use cwusb.Reader.Fields.{psp_next}
use cwusb.Reader.Stream.{last}
use cwusb.Reader.Writing.{write_of}
use cwusb.Bridge.FromPsp.{ethernet_datagram}
use cwusb.Bridge.System.{System, datagram_of, ethernet_bytes}
use cwusb.Bridge.Together.{IsReady}
use cwusb.Reader.Reads.{read_all}
use cwusb.Reader.Unplugged.{with_queues}
use cwusb.Bridge.LostPacket.{lost_packet}
use cwusb.Bridge.Interleaving.{ToCome, psp_frames_interleaved, xlink_kai_frames_interleaved}
use cwusb.Tests.Situation.{
  addresses, codes, receiver, ready, start, third_packet, written, cut_packet, half_message, end,
  two_frames,
}
use cwusb.Tests.Schedule.{sent_once}

is_ready : IsReady start
is_ready = record {
  reading = record {
    opened = record { handle = 1; is_open = refl; array = refl };
    going = refl;
    checked = refl;
    no_error = refl;
    not_sending = refl;
    retries = refl;
    may_retry = refl;
  };
  between_frames = refl;
  receives = record {
    no_packets = refl;
    message = empty-IsMessage;
    no_bytes = refl;
    running = refl;
  };
  no_frames = refl;
  no_packets = refl;
}

psp_frames_interleaved_example :
    (sent queued others : List Bytes) × (t : ReceiveThread) × (replicate 500 7 ∷ replicate 20 9 ∷ []
      ≡ (sent ++ queued) ++ others)
    × (map datagram_of
          (ethernet_datagram {a = addresses} end.connection.remote (replicate 500 7) ∷ [])
        ≡ map ethernet_bytes sent)
    × (ReceiveThread.run_passes (length end.reader.receive_thread.queue) end.reader.receive_thread
        ≡ ok (t, queued))
    × (t.queue ≡ [])
    × ToCome others (third_packet ∷ [])
psp_frames_interleaved_example =
    psp_frames_interleaved codes (third_packet ∷ []) is_ready sent_once two_frames

xlink_kai_frames_interleaved_example :
    (done : List Bytes) × (popped : List StitchPacket) × ((1 ∷ 2 ∷ []) ∷ []
      ≡ done ++ map frame_of end.reader.send_thread.queue)
    × (write_of cut_packet ∷ [] ≡ map write_of popped)
    × Streams done (popped ++ end.reader.send_thread.outgoing_queue)
xlink_kai_frames_interleaved_example =
    xlink_kai_frames_interleaved codes (third_packet ∷ []) is_ready sent_once two_frames

abbrev silent : Loop.Events
silent = record {
  check = written;
  devices = none;
  read = record { error = 2 ^ 32 - 7; transferred = 0; bytes = [] };
  hello_write = written;
  writes = λ j. written;
}

-- A queue of one packet, which is full in the middle of a frame of 1000 bytes.
abbrev full_receiver : ReceiveThread
full_receiver = record receiver {
  max_buffer_size = 1;
  queue = record { bytes = replicate 488 7 ++ replicate 24 0; length = 488; stitch = true } ∷ [];
}

abbrev full_reader : Reader
full_reader = record ready {
  actual_length = 1000;
  receive_stitching = true;
  stitching_length = 488;
  receive_thread = full_receiver;
}

abbrev emptied : ReceiveThread
emptied = record receiver { max_buffer_size = 1; last_received_message = half_message }

half_message-IsMessage : IsMessage half_message
half_message-IsMessage = record { array = refl; fits = omega arith; waiting = λ e. cc }

lost_packet_example :
    (r₁ r' : Reader) × (q' : ReceiveThread) × (Loop.read_packet codes full_reader
        (read_of (psp_next ++ replicate 504 8))
        written
      ≡ ok (r₁, []))
    × (r₁.receive_thread ≡ full_receiver)
    × (read_all codes written
          ((psp_next ++ replicate 8 9) ∷ [])
          (with_queues r₁ (full_reader.send_thread, emptied))
        ≡ ok r')
    × (r'.receive_stitching ≡ false)
    × (ReceiveThread.run_passes 1 r'.receive_thread
        ≡ ok (q', (replicate 488 7 ++ replicate 8 9) ∷ []))
unfolding async_command le32
lost_packet_example =
    lost_packet codes written full_reader (psp_next ++ replicate 504 8) (replicate 504 8)
      full_reader.send_thread emptied (record { handle = 1; is_open = refl; array = refl }) refl
      refl refl (last refl (omega arith) (omega arith) (omega arith)) (omega arith) refl
      (omega arith) (omega arith) refl refl half_message-IsMessage (omega arith) (omega arith)
