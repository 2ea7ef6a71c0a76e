-- ===== src/Bridge/ToPsp.antt =====
-- From XLink Kai to the PSP: `XLinkKaiConnection::ReceiveCallback`, `USBReader::Send`,
-- `USBSendThread`, `HandleAsynchronousSend`.
use cwusb.Base.{
  ℕ, inl, inr, ◌≤◌, ◌<◌, ◌≡◌, sym, ap, ◌∙◌, Bool, true, false, List, [], ◌∷◌, ◌++◌, map, some,
  Bytes, length, ok, err, out_of_bounds, arith,
}
use cwusb.Usb.{StitchPacket, WifiPacket, max_asynchronous_buffer}
use cwusb.SendThread
use cwusb.SendThread.{SendThread}
use cwusb.SendThread.Packets.{first_header}
use cwusb.SendThread.Cutting.{Carries, frame_of}
use cwusb.SendThread.Frames.{
  HasRoom, add_to_queue-accepts, add_to_queue-overflows, run_once-OfFrame, OfFrame,
}
use cwusb.Reader.State.{Reader}
use cwusb.Reader.Transfers.{Transfer, handle_asynchronous_send}
use cwusb.Reader.Writing.{write_of, handle_asynchronous_send-writes}
use cwusb.Reader.Control.{send}
use cwusb.XLinkKai.Protocol.{ethernet_data_string}
use cwusb.XLinkKai.Connection.{Addresses, Connection, to_usb}
use cwusb.XLinkKai.Receive.{receive_callback}
use cwusb.XLinkKai.Receive.Ethernet.{after_frame, receive_callback-frame}

-- The send thread with nothing queued on either side.
pub record IsIdle (s : SendThread) : Type 0 where
  pub no_frames : s.queue ≡ []
  pub no_packets : s.outgoing_queue ≡ []
  pub room : HasRoom s

-- The writes of a frame.
pub record Sends (r : Reader) (frame : Bytes) (outcome : ℕ → Transfer) : Type 0 where
  pub queued : Reader
  pub cut : SendThread
  pub packets : List StitchPacket
  pub accepts : send r frame ≡ ok queued
  pub cuts : SendThread.run_once queued.send_thread ≡ ok cut
  pub carries : Carries (first_header (length frame)) frame packets
  pub writes :
      (handle_asynchronous_send outcome (record queued { send_thread = cut })).1
      ≡ map write_of packets

OfFrame-Carries :
    (p : WifiPacket) (frame : Bytes) {ps : List StitchPacket}
    → frame_of p ≡ frame
    → 0 < length frame
    → OfFrame p ps
    → Carries (first_header (length frame)) frame ps
OfFrame-Carries p frame same pos (inl (empty, nothing)) =
    absurd (omega (arith, ap length (sym same ∙ empty)))
OfFrame-Carries p frame same pos (inr carried) = rw (← same) carried

-- A datagram `e;e;` from XLink Kai with a frame of 1 to 2304 bytes, received while the connection
-- is up and has its USB side set, is handed to the USB side without its prefix; with the reader's
-- threads started, the device open and no request to stop, an idle send thread cuts it into
-- packets that carry exactly the frame's bytes, and the reader writes those packets to the PSP in
-- order.
pub xlink_kai_frame_reaches_psp :
    {a : Addresses} (c : Connection a) (now : ℕ) (fails : Bool) (frame : Bytes) (r : Reader)
    {handle : ℕ} (outcome : ℕ → Transfer)
    → c.connected ≡ true
    → c.incoming_connection ≡ true
    → 0 < length frame
    → length frame ≤ max_asynchronous_buffer
    → r.has_threads ≡ true
    → r.device_handle ≡ some handle
    → r.stop_request ≡ false
    → IsIdle r.send_thread
    → (receive_callback c now (ethernet_data_string ++ frame) fails
        ≡ ok (after_frame c now frame, to_usb frame ∷ []))
      × Sends r frame outcome
unfolding send
xlink_kai_frame_reaches_psp c now fails frame r outcome up incoming pos fits threads opened going
      i =
    let (p, accepted, good, same) = add_to_queue-accepts r.send_thread frame i.room fits in
    let s₁ : SendThread = record r.send_thread { queue = r.send_thread.queue ++ (p ∷ []) } in
    let (ps, cuts, of) = run_once-OfFrame s₁ p [] (ap (λ q. q ++ (p ∷ [])) i.no_frames) good in
    let cut : SendThread = record s₁ {
      queue = [];
      last_received_packet = p;
      outgoing_queue = s₁.outgoing_queue ++ ps;
    } in
    (
      receive_callback-frame c now frame fails up incoming,
      record {
        queued = record r { send_thread = s₁ };
        cut = cut;
        packets = ps;
        accepts = rw (threads, accepted);
        cuts = cuts;
        carries = OfFrame-Carries p frame same pos of;
        writes =
            (handle_asynchronous_send-writes outcome (record r { send_thread = cut }) opened
              going).0
            ∙ ap (λ q. map write_of (q ++ ps)) i.no_packets;
      },
    )

-- A datagram `e;e;` with more than 2304 bytes behind the prefix, received while the connection is
-- up and has its USB side set, is handed on just the same, and once the reader's threads are
-- started and with room in the queue it is written past the end of the send thread's packet.
pub xlink_kai_frame_overflows :
    {a : Addresses} (c : Connection a) (now : ℕ) (fails : Bool) (frame : Bytes) (r : Reader)
    → c.connected ≡ true
    → c.incoming_connection ≡ true
    → max_asynchronous_buffer < length frame
    → r.has_threads ≡ true
    → HasRoom r.send_thread
    → (receive_callback c now (ethernet_data_string ++ frame) fails
        ≡ ok (after_frame c now frame, to_usb frame ∷ []))
      × (send r frame ≡ err out_of_bounds)
unfolding send
xlink_kai_frame_overflows c now fails frame r up incoming big threads room = (
  receive_callback-frame c now frame fails up incoming,
  rw (threads, add_to_queue-overflows r.send_thread frame room big),
)
