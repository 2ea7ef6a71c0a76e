-- ===== src/Tests/Schedule.antt =====
-- A schedule of the four threads.
use cwusb.Base.{refl, [], ◌∷◌, replicate, equal, memcpy, le32, get32, arith}
use cwusb.Usb.{async_command, async_sub_header}
use cwusb.ReceiveThread
use cwusb.ReceiveThread.{ReceiveThread, stitch_onto, send_off}
use cwusb.SendThread
use cwusb.SendThread.{SendThread, make_packets, make_packet, add_sub_header}
use cwusb.Reader.Transfers
use cwusb.Reader.Transfers.{Transfer, Write}
use cwusb.Reader.Receive
use cwusb.Reader.Loop
use cwusb.Reader.Loop.{ErrorCodes}
use cwusb.Reader.Writing.{write_of}
use cwusb.XLinkKai.Connection.{send, send_data}
use cwusb.XLinkKai.Receive as Callback
use cwusb.XLinkKai.Loop as Engine
use cwusb.Bridge.FromPsp.{ethernet_datagram}
use cwusb.Bridge.System.{Runs, begin, read, receive, cut, talk, all_handed, accepted}
use cwusb.Tests.Situation.{
  codes, sender, ready, start, first_packet, second_packet, reads, heard, one_two, cut_packet,
  after_talk, after_first, after_cut, after_second, end,
}

talked : Runs codes start [] ((1 ∷ 2 ∷ []) ∷ []) [] [] (record {
  reader = record ready { send_thread = record sender { queue = one_two ∷ [] } };
  connection = after_talk;
})
unfolding SendThread.add_to_queue memcpy Engine.pass Engine.poll Engine.receive_waiting
    Callback.receive_callback Callback.handle_datagram Callback.confirm Callback.handle_command
    Callback.handle_ethernet Callback.start_receiver_thread equal
talked = talk {s = start} heard begin refl (accepted refl all_handed)

read_once :
    Runs codes start
      (first_packet ∷ [])
      ((1 ∷ 2 ∷ []) ∷ [])
      []
      []
      (record { reader = after_first; connection = after_talk })
unfolding async_command async_sub_header le32 get32 memcpy Loop.goes_on Loop.pass Loop.check_device
    Loop.recover Loop.read_phase Loop.read_packet Loop.write_phase Transfers.usb_bulk_read
    Receive.receive_callback Receive.dispatch Receive.handle_asynchronous Receive.handle_first
    Receive.handle_next Receive.copy_packet Receive.is_debug_print_command
    ReceiveThread.add_to_queue
read_once =
    read (reads first_packet) first_packet talked refl
      (λ j. record { no_error = refl; counted = refl }) (omega arith) refl refl

cut_once :
    Runs codes start
      (first_packet ∷ [])
      ((1 ∷ 2 ∷ []) ∷ [])
      []
      []
      (record { reader = after_cut; connection = after_talk })
unfolding async_command async_sub_header le32 memcpy SendThread.run_once make_packets make_packet
    add_sub_header ReceiveThread.run_once stitch_onto send_off
cut_once = receive (cut read_once refl) refl refl refl refl

read_twice :
    Runs codes start
      (first_packet ∷ second_packet ∷ [])
      ((1 ∷ 2 ∷ []) ∷ [])
      (write_of cut_packet ∷ [])
      []
      (record { reader = after_second; connection = after_talk })
unfolding async_command async_sub_header le32 get32 memcpy Loop.goes_on Loop.pass Loop.check_device
    Loop.recover Loop.read_phase Loop.read_packet Loop.write_phase Transfers.usb_bulk_read
    Receive.receive_callback Receive.dispatch Receive.handle_asynchronous Receive.handle_first
    Receive.handle_next Receive.copy_packet Receive.is_debug_print_command
    ReceiveThread.add_to_queue Transfers.handle_asynchronous_send Transfers.send_packets
    Transfers.send_packet Transfers.usb_bulk_write SendThread.has_outgoing_data
    SendThread.pop_from_outgoing_queue
read_twice =
    read (reads second_packet) second_packet cut_once refl
      (λ j. record { no_error = refl; counted = refl }) (omega arith) refl refl

pub sent_once :
    Runs codes start
      (first_packet ∷ second_packet ∷ [])
      ((1 ∷ 2 ∷ []) ∷ [])
      (write_of cut_packet ∷ [])
      (ethernet_datagram (1, 34523) (replicate 500 7) ∷ [])
      end
unfolding memcpy ReceiveThread.run_once stitch_onto send_off send_data send
sent_once = receive read_twice refl refl refl refl
