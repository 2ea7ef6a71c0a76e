-- ===== src/Reader/Writing.antt =====
-- `USBReader::HandleAsynchronousSend` and the outgoing queue.
use cwusb.Base.{
  ℕ, suc, ◌+◌, ◌≡◌, refl, ap, ◌∙◌, false, List, [], ◌∷◌, ◌++◌, map, some, length, arith,
}
use cwusb.Usb.{StitchPacket}
use cwusb.SendThread.{has_outgoing_data, pop_from_outgoing_queue}
use cwusb.SendThread.Packets.{wire}
use cwusb.Reader.State.{Reader}
use cwusb.Reader.Transfers.{
  Transfer, Write, usb_data_write_endpoint, usb_bulk_write, send_packet, send_packets,
  handle_asynchronous_send,
}

abbrev pub write_of : StitchPacket → Write
write_of p = (usb_data_write_endpoint, wire p)

-- One round on a queue with a front.
record Sent (r : Reader) (p : StitchPacket) (ps : List StitchPacket) (out : Reader × List Write)
    : Type 0 where
  writes : out.1 ≡ write_of p ∷ []
  left : out.0.send_thread.outgoing_queue ≡ ps
  handle : out.0.device_handle ≡ r.device_handle
  stop : out.0.stop_request ≡ r.stop_request
  flag : out.0.send_stitching ≡ p.stitch

send_packet-Sent :
    (r : Reader) (t : Transfer) (p : StitchPacket) (ps : List StitchPacket) {handle : ℕ}
    → r.device_handle ≡ some handle
    → r.send_thread.outgoing_queue ≡ p ∷ ps
    → Sent r p ps (send_packet r t)
unfolding send_packet usb_bulk_write pop_from_outgoing_queue
send_packet-Sent r t p ps open_ front = ground arith

send_packets_step :
    (n : ℕ) (outcome : ℕ → Transfer) (i : ℕ) (r : Reader) (p : StitchPacket)
    (ps : List StitchPacket)
    → r.stop_request ≡ false
    → r.send_thread.outgoing_queue ≡ p ∷ ps
    → let (r₁, writes) = send_packet r (outcome i) in
      let (r₂, more) = send_packets n outcome (i + 1) r₁ in
      send_packets (suc n) outcome i r ≡ (r₂, writes ++ more)
unfolding send_packets has_outgoing_data
send_packets_step n outcome i r p ps going front = ground arith

send_packets-writes :
    (ps : List StitchPacket) (outcome : ℕ → Transfer) (i : ℕ) (r : Reader) {handle : ℕ}
    → r.device_handle ≡ some handle
    → r.stop_request ≡ false
    → r.send_thread.outgoing_queue ≡ ps
    → let (r', writes) = send_packets (length ps) outcome i r in
      (writes ≡ map write_of ps) × (r'.send_thread.outgoing_queue ≡ [])
unfolding send_packets
send_packets-writes [] outcome i r opened going e = (refl, e)
send_packets-writes (p ∷ ps) outcome i r opened going e =
    let s : Sent r p ps (send_packet r (outcome i)) =
      send_packet-Sent r (outcome i) p ps opened e in
    let (written, empty) =
      send_packets-writes ps outcome (i + 1) (send_packet r (outcome i)).0 (s.handle ∙ opened)
        (s.stop ∙ going) s.left in
    rw (send_packets_step (length ps) outcome i r p ps going e) (
      ap (λ w. w ++ (send_packets (length ps) outcome (i + 1) (send_packet r (outcome i)).0).1)
            s.writes
          ∙ ap (λ w. write_of p ∷ w) written,
      empty,
    )

-- With the device open and no request to stop, the packets are written in the queue's order, each
-- with exactly its bytes, whatever becomes of each write; the queue is empty then.
pub handle_asynchronous_send-writes :
    (outcome : ℕ → Transfer) (r : Reader) {handle : ℕ}
    → r.device_handle ≡ some handle
    → r.stop_request ≡ false
    → let (r', writes) = handle_asynchronous_send outcome r in
      (writes ≡ map write_of r.send_thread.outgoing_queue) × (r'.send_thread.outgoing_queue ≡ [])
unfolding handle_asynchronous_send
handle_asynchronous_send-writes outcome r opened going =
    send_packets-writes r.send_thread.outgoing_queue outcome 0 r opened going refl
