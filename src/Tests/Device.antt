-- ===== src/Tests/Device.antt =====
-- `USBReader`.
use cwusb.Base.{
  ℕ, ◌-◌, ◌^◌, ◌≡◌, refl, false, [], ◌∷◌, ◌++◌, none, some, Bytes, length, replicate, ok, le32,
  arith,
}
use cwusb.Usb.{StitchPacket, async_command, async_sub_header}
use cwusb.ReceiveThread
use cwusb.Reader.State.{Reader, make}
use cwusb.Reader.Transfers.{Transfer, handle_asynchronous_send}
use cwusb.Reader.Loop.{ErrorCodes, Events}
use cwusb.Reader.Fields.{psp_first, psp_next}
use cwusb.Reader.Delivery.{IsOpen}
use cwusb.Reader.Reads.{read_all}
use cwusb.Reader.Stream.{PspStream, last, more, Delivered, read_all-Delivered}
use cwusb.Reader.ShortTail.{IsStuck, read_all_short_tail}
use cwusb.Reader.Writing.{handle_asynchronous_send-writes}

-- A reader with an open device, a limit of 3 restarts, and room for 10 packets.
abbrev reader : Reader
unfolding make ReceiveThread.make
reader = record (make 10 3 5 2 2) { device_handle = some 1 }

abbrev codes_of_libusb : ErrorCodes
codes_of_libusb = record {
  timeout = 2 ^ 32 - 7;
  busy = 2 ^ 32 - 6;
  timeout_negative = refl;
  busy_negative = refl;
}

abbrev nothing_read : Transfer
nothing_read = record { error = 2 ^ 32 - 7; transferred = 0; bytes = [] }

abbrev written : ℕ → Transfer
written i = record { error = 0; transferred = 512; bytes = [] }

abbrev quiet : Events
quiet = record {
  check = nothing_read;
  devices = none;
  read = nothing_read;
  hello_write = nothing_read;
  writes = written;
}

reader-IsOpen : IsOpen reader
unfolding make reader
reader-IsOpen = record { handle = 1; is_open = refl; array = refl }

-- A frame of 500 bytes in a full packet and one of 20 bytes.
abbrev frame : Bytes
frame = replicate 500 7

abbrev first_packet : Bytes
first_packet = psp_first 500 ++ replicate 488 7

abbrev second_packet : Bytes
second_packet = psp_next ++ replicate 12 7

frame-PspStream : PspStream (psp_first (length frame)) frame (first_packet ∷ second_packet ∷ [])
unfolding async_command async_sub_header le32
frame-PspStream =
    more (replicate 488 7) refl refl refl (omega arith)
      (last refl (omega arith) (omega arith) (omega arith))

read_all-Delivered_example :
    (r' : Reader) × (read_all codes_of_libusb nothing_read
        (first_packet ∷ second_packet ∷ [])
        reader
      ≡ ok r')
    × Delivered reader frame 2 r'
unfolding make reader ReceiveThread.make
read_all-Delivered_example =
    read_all-Delivered codes_of_libusb nothing_read reader frame-PspStream reader-IsOpen refl
      (omega arith) (omega arith)

-- A tail of two bytes.
read_all_short_tail_example :
    (r' : Reader) × (read_all codes_of_libusb nothing_read
        ((psp_first 490 ++ replicate 488 7) ∷ (psp_next ++ (7 ∷ 7 ∷ [])) ∷ [])
        reader
      ≡ ok r')
    × IsStuck reader (replicate 488 7) r'
unfolding make reader ReceiveThread.make
read_all_short_tail_example =
    read_all_short_tail codes_of_libusb nothing_read reader (replicate 488 7) (7 ∷ 7 ∷ []) refl
      (omega arith) (omega arith) reader-IsOpen refl (omega arith)

-- Two packets to write.
abbrev packet_to_write : ℕ → StitchPacket
packet_to_write b = record { bytes = replicate 512 b; length = 2; stitch = false }

abbrev sending : Reader
sending = record reader {
  send_thread = record reader.send_thread {
    outgoing_queue = packet_to_write 1 ∷ packet_to_write 2 ∷ [];
  };
}

handle_asynchronous_send-writes_example :
    let (r', writes) = handle_asynchronous_send written sending in
    (writes ≡ (3, 1 ∷ 1 ∷ []) ∷ (3, 2 ∷ 2 ∷ []) ∷ []) × (r'.send_thread.outgoing_queue ≡ [])
unfolding make reader
handle_asynchronous_send-writes_example = handle_asynchronous_send-writes written sending refl refl
