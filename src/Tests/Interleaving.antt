-- ===== src/Tests/Interleaving.antt =====
-- Turns of the threads on the two queues.
use cwusb.Base.{
  ◌≡◌, refl, false, List, [], ◌∷◌, ◌++◌, map, some, Bytes, replicate, memcpy, le32, arith,
}
use cwusb.Usb.{StitchPacket, WifiPacket, async_command, async_sub_header}
use cwusb.ReceiveThread
use cwusb.ReceiveThread.{ReceiveThread, stitch_onto, send_off}
use cwusb.ReceiveThread.Message.{contents, empty-IsMessage}
use cwusb.ReceiveThread.Reassembly.{assemble}
use cwusb.ReceiveThread.Interleaving
use cwusb.ReceiveThread.Interleaving.{Runs-assemble}
use cwusb.SendThread
use cwusb.SendThread.{
  SendThread, make_packets, make_packet, add_sub_header, has_outgoing_data, pop_from_outgoing_queue,
}
use cwusb.SendThread.Packets.{first_header}
use cwusb.SendThread.Cutting.{frame_of}
use cwusb.SendThread.Frames.{Streams}
use cwusb.SendThread.Interleaving as Sending
use cwusb.SendThread.Interleaving.{Runs-Streams}

abbrev receiver : ReceiveThread
unfolding ReceiveThread.make
receiver = ReceiveThread.make 10

abbrev two_sevens : StitchPacket
two_sevens = record { bytes = replicate 512 7; length = 2; stitch = false }

abbrev receiver_with_one : ReceiveThread
unfolding ReceiveThread.make receiver
receiver_with_one = record receiver { queue = two_sevens ∷ [] }

-- A packet, a pass, and another packet.
receiver_turns :
    Interleaving.Runs receiver (two_sevens ∷ two_sevens ∷ []) ((7 ∷ 7 ∷ []) ∷ []) receiver_with_one
unfolding ReceiveThread.make receiver receiver_with_one ReceiveThread.add_to_queue
    ReceiveThread.run_once stitch_onto send_off memcpy
receiver_turns =
    Interleaving.accept {ps = two_sevens ∷ []} {t = receiver} two_sevens
      (Interleaving.pass {t = receiver_with_one} {t' = receiver} {sent = some (7 ∷ 7 ∷ [])}
        (Interleaving.accept {ps = []} {t = receiver} two_sevens Interleaving.begin refl) refl)
      refl

Runs-assemble_example :
    ((7 ∷ 7 ∷ []) ∷ [])
      ++ assemble (contents receiver_with_one.last_received_message) receiver_with_one.queue
    ≡ assemble [] (two_sevens ∷ two_sevens ∷ [])
unfolding ReceiveThread.make receiver receiver_with_one
Runs-assemble_example =
    Runs-assemble receiver receiver_with_one (two_sevens ∷ two_sevens ∷ []) ((7 ∷ 7 ∷ []) ∷ []) refl
      empty-IsMessage refl receiver_turns
      (
        record { array = refl; fits = omega arith },
        (record { array = refl; fits = omega arith }, tt),
      )

abbrev sender : SendThread
unfolding SendThread.make
sender = SendThread.make 10

abbrev one_two : WifiPacket
one_two = record { bytes = 1 ∷ 2 ∷ replicate 2302 0; length = 2 }

abbrev cut_packet : StitchPacket
unfolding async_command async_sub_header le32
cut_packet = record {
  bytes = first_header 2 ++ ((1 ∷ 2 ∷ []) ++ replicate 486 0);
  length = 26;
  stitch = false;
}

abbrev sent_off : SendThread
unfolding SendThread.make sender
sent_off = record sender { last_received_packet = one_two }

-- A frame, a pass, and the packet that it gives.
sender_turns : Sending.Runs sender ((1 ∷ 2 ∷ []) ∷ []) (cut_packet ∷ []) sent_off
unfolding SendThread.make sender sent_off cut_packet SendThread.add_to_queue SendThread.run_once
    make_packets make_packet add_sub_header memcpy async_command async_sub_header le32
    has_outgoing_data pop_from_outgoing_queue
sender_turns =
    Sending.pop {popped = []} {s = record sent_off { outgoing_queue = cut_packet ∷ [] }}
      (Sending.pass {s = record sender { queue = one_two ∷ [] }}
        (Sending.accept {frames = []} {s = sender} (1 ∷ 2 ∷ []) Sending.begin refl) refl)
      refl refl

Runs-Streams_example :
    (done : List Bytes) × ((1 ∷ 2 ∷ []) ∷ [] ≡ done ++ map frame_of sent_off.queue)
    × Streams done ((cut_packet ∷ []) ++ sent_off.outgoing_queue)
unfolding SendThread.make sender sent_off
Runs-Streams_example =
    Runs-Streams sender sent_off ((1 ∷ 2 ∷ []) ∷ []) (cut_packet ∷ []) refl refl sender_turns
