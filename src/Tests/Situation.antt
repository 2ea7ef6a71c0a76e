-- ===== src/Tests/Situation.antt =====
-- The states of a schedule of the four threads, with frames in both directions.
use cwusb.Base.{
  if◌then◌else◌, ℕ, ◌-◌, ◌^◌, refl, true, false, [], ◌∷◌, ◌++◌, none, some, Bytes, replicate, drop,
  equal, le32, arith,
}
use cwusb.Usb.{
  empty_stitch_wifi_packet, empty_wifi_packet, StitchPacket, WifiPacket, async_command,
  async_sub_header,
}
use cwusb.ReceiveThread.{ReceiveThread}
use cwusb.SendThread.{SendThread}
use cwusb.SendThread.Packets.{first_header}
use cwusb.Reader.State.{Reader}
use cwusb.Reader.Transfers.{Transfer}
use cwusb.Reader.Loop
use cwusb.Reader.Loop.{ErrorCodes}
use cwusb.Reader.Delivery.{read_of}
use cwusb.Reader.Fields.{psp_first, psp_next}
use cwusb.Reader.Stream.{last, more}
use cwusb.XLinkKai.Protocol.{default_ip, ethernet_data_string}
use cwusb.XLinkKai.Connection.{Addresses, Connection}
use cwusb.XLinkKai.Loop as Engine
use cwusb.Bridge.Frames.{PspStreams, no_frames, next_frame}
use cwusb.Bridge.System.{System}

abbrev pub addresses : Addresses
addresses = record {
  Address = ℕ;
  from_string = λ text. if equal text default_ip then some 1 else none;
  unset = 0;
}

abbrev pub codes : ErrorCodes
codes = record {
  timeout = 2 ^ 32 - 7;
  busy = 2 ^ 32 - 6;
  timeout_negative = refl;
  busy_negative = refl;
}

abbrev pub settled : Connection addresses
settled = record {
  connected = true;
  connect_initiated = false;
  settings_sent = true;
  connection_timer_start = 0;
  keep_alive_timer_start = 0;
  ethernet_data = [];
  incoming_connection = true;
  ip = default_ip;
  port = 34523;
  hosting = false;
  use_host_ssid = false;
  receiver_thread = true;
  remote = (1, 34523);
  is_open = true;
}

-- As the constructors leave them, with room for ten.
abbrev pub receiver : ReceiveThread
receiver = record {
  max_buffer_size = 10;
  done = true;
  last_received_message = empty_stitch_wifi_packet;
  queue = [];
  stop_request = false;
  running = false;
}

abbrev pub sender : SendThread
sender = record {
  max_buffer_size = 10;
  done = true;
  last_received_packet = empty_wifi_packet;
  queue = [];
  outgoing_queue = [];
  stop_request = false;
  running = false;
}

abbrev pub ready : Reader
ready = record {
  max_buffered_messages = 10;
  max_fatal_retries = 3;
  max_read_write_retries = 5;
  read_timeout_ms = 2;
  write_timeout_ms = 2;
  read_write_retry_counter = 0;
  receive_stitching = false;
  temporary_receive_buffer = replicate 512 0;
  stop_request = false;
  send_stitching = false;
  device_handle = some 1;
  error = false;
  length = 0;
  actual_length = 0;
  stitching_length = 0;
  usb_thread = false;
  has_threads = false;
  receive_thread = receiver;
  send_thread = sender;
  retry_counter = 0;
  usb_check_successful = true;
}

abbrev pub start : System addresses
start = record { reader = ready; connection = settled }

-- A frame of 500 bytes in two packets and one of 20 bytes in a third.
abbrev pub first_packet : Bytes
first_packet = psp_first 500 ++ replicate 488 7

abbrev pub second_packet : Bytes
second_packet = psp_next ++ replicate 12 7

abbrev pub third_packet : Bytes
third_packet = psp_first 20 ++ replicate 20 9

pub two_frames :
    PspStreams
      (replicate 500 7 ∷ replicate 20 9 ∷ [])
      (first_packet ∷ second_packet ∷ third_packet ∷ [])
unfolding async_command async_sub_header le32
two_frames =
    next_frame
      (more (replicate 488 7) refl refl refl (omega arith)
        (last refl (omega arith) (omega arith) (omega arith)))
      (omega arith)
      (next_frame (last refl (omega arith) (omega arith) (omega arith)) (omega arith) no_frames)

abbrev pub written : Transfer
written = record { error = 0; transferred = 26; bytes = [] }

abbrev pub reads : Bytes → Loop.Events
reads w = record {
  check = written;
  devices = none;
  read = read_of w;
  hello_write = written;
  writes = λ j. written;
}

-- XLink Kai sends a frame of two bytes.
abbrev pub heard : Engine.Events addresses
heard = record {
  now = 5;
  send_fails = false;
  open_fails = false;
  received =
      record {
        bytes = ethernet_data_string ++ (1 ∷ 2 ∷ []);
        sender = (1, 34523);
        now = 5;
        send_fails = false;
      }
      ∷ [];
}

abbrev pub one_two : WifiPacket
one_two = record { bytes = 1 ∷ 2 ∷ replicate 2302 0; length = 2 }

abbrev pub cut_packet : StitchPacket
cut_packet = record {
  bytes = first_header 2 ++ ((1 ∷ 2 ∷ []) ++ replicate 486 0);
  length = 26;
  stitch = false;
}

abbrev pub after_talk : Connection addresses
after_talk = record settled { keep_alive_timer_start = 5; ethernet_data = 1 ∷ 2 ∷ [] }

abbrev pub after_first : Reader
after_first = record ready {
  temporary_receive_buffer = first_packet;
  actual_length = 500;
  receive_stitching = true;
  stitching_length = 488;
  receive_thread = record receiver {
    queue = record { bytes = replicate 488 7 ++ replicate 24 0; length = 488; stitch = true } ∷ [];
  };
  send_thread = record sender { queue = one_two ∷ [] };
}

abbrev pub half_message : StitchPacket
half_message = record { bytes = replicate 488 7 ++ replicate 1816 0; length = 488; stitch = true }

abbrev pub after_cut : Reader
after_cut = record after_first {
  receive_thread = record receiver { last_received_message = half_message };
  send_thread = record sender { last_received_packet = one_two; outgoing_queue = cut_packet ∷ [] };
}

abbrev pub after_second : Reader
after_second = record after_first {
  temporary_receive_buffer = second_packet ++ drop 20 first_packet;
  receive_stitching = false;
  stitching_length = 0;
  receive_thread = record receiver {
    last_received_message = half_message;
    queue = record { bytes = replicate 12 7 ++ replicate 500 0; length = 12; stitch = false } ∷ [];
  };
  send_thread = record sender { last_received_packet = one_two };
}

abbrev pub end : System addresses
end = record { reader = record after_second { receive_thread = receiver }; connection = after_talk }
