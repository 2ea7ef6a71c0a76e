-- ===== src/Bridge/LostPacket.antt =====
-- A packet in the middle of a frame from the PSP, while `USBReceiveThread`'s queue is full.
use cwusb.Base.{
  ℕ, ◌+◌, ◌^◌, ◌≤◌, ◌<◌, ◌≡◌, sym, ap, ◌∙◌, true, false, List, [], ◌∷◌, ◌++◌, append-nil, Bytes,
  length, ok, to_size, arith,
}
use cwusb.Usb.{max_asynchronous_buffer}
use cwusb.SendThread.{SendThread}
use cwusb.ReceiveThread
use cwusb.ReceiveThread.{ReceiveThread}
use cwusb.ReceiveThread.Message.{IsMessage, contents}
use cwusb.ReceiveThread.Reassembly.{assemble, run_passes-assemble}
use cwusb.Reader.State.{Reader}
use cwusb.Reader.Transfers.{Transfer}
use cwusb.Reader.Loop.{ErrorCodes, read_packet}
use cwusb.Reader.Fields.{psp_next}
use cwusb.Reader.Delivery.{IsOpen, read_of, goes_on_stitching}
use cwusb.Reader.Reads.{HasRoom, read_all, Received, queued_full, read_next}
use cwusb.Reader.Stream.{PspStream, Delivered, read_rest}
use cwusb.Reader.Unplugged.{with_queues}
use cwusb.Bridge.Joining.{assemble-Joins, Joins-Fits}

module _ (codes : ErrorCodes) (t : Transfer) where
  -- The receive thread makes one message of what it holds and of the packets behind.
  message_of :
      {r r' : Reader} {rest : Bytes} {n : ℕ}
      → Delivered r rest n r'
      → r.receive_thread.queue ≡ []
      → r.receive_thread.stop_request ≡ false
      → IsMessage r.receive_thread.last_received_message
      → length (contents r.receive_thread.last_received_message) + length rest
        ≤ max_asynchronous_buffer
      → (q : ReceiveThread) × (ReceiveThread.run_passes n r'.receive_thread
          ≡ ok (q, (contents r.receive_thread.last_received_message ++ rest) ∷ []))
  message_of {r} {r'} {rest} d empty going v fits =
      let held = contents r.receive_thread.last_received_message in
      let same : contents r'.receive_thread.last_received_message ≡ held = ap contents d.message in
      let queue : r'.receive_thread.queue ≡ d.packets = d.queue ∙ ap (λ q. q ++ d.packets) empty in
      let (q, passes, _, _) =
        run_passes-assemble d.packets r'.receive_thread queue (d.stop ∙ going) (rw d.message v)
          (rw (same, ← append-nil d.packets) (Joins-Fits held [] d.joins fits tt)) in
      (
        q,
        ap (λ k. ReceiveThread.run_passes k r'.receive_thread) (sym d.count)
            ∙ passes
            ∙ ap (λ m. ok (q, m))
                (ap (λ b. assemble b d.packets) same
                  ∙ ap (assemble held) (sym (append-nil d.packets))
                  ∙ assemble-Joins held [] d.joins),
      )

  -- A full packet in the middle of a frame from the PSP that finds the receive thread's queue full
  -- is lost, and the frame is not given up: the reader goes on within it, and when the receive
  -- thread has emptied its queue and the packets behind are read, it makes one message of the
  -- bytes that it held and of those behind the lost packet. The conditions are an open device, a
  -- total below 2^31, packets behind that are full but for the last and not shorter than 12 bytes,
  -- a receive thread that is not to stop, holds a well-formed message and has room for the packets
  -- behind, and at most 2304 bytes of the frame without the lost ones.
  pub lost_packet :
      (r : Reader) (w chunk : Bytes) {rest : Bytes} {ws : List Bytes} (s : SendThread)
      (q : ReceiveThread)
      → IsOpen r
      → r.receive_stitching ≡ true
      → w ≡ psp_next ++ chunk
      → length w ≡ 512
      → PspStream psp_next rest ws
      → 0 < length rest
      → r.stitching_length + (length chunk + length rest) ≡ r.actual_length
      → r.actual_length < 2 ^ 31
      → to_size r.receive_thread.max_buffer_size ≤ length r.receive_thread.queue
      → q.queue ≡ []
      → q.stop_request ≡ false
      → IsMessage q.last_received_message
      → HasRoom q (length ws)
      → length (contents q.last_received_message) + length rest ≤ max_asynchronous_buffer
      → (r₁ r' : Reader) × (q' : ReceiveThread) × (read_packet codes r (read_of w) t ≡ ok (r₁, []))
        × (r₁.receive_thread ≡ r.receive_thread)
        × (read_all codes t ws (with_queues r₁ (s, q)) ≡ ok r')
        × (r'.receive_stitching ≡ false)
        × (ReceiveThread.run_passes (length ws) r'.receive_thread
            ≡ ok (q', (contents q.last_received_message ++ rest) ∷ []))
  lost_packet r w chunk {rest} s q o on e full stream pos total bound no_room empty going v room
        fits =
      let (r₁, reads, x, actual, sum) =
        read_next codes t r o w (omega arith) (omega arith) chunk e on (omega arith) bound in
      let goes : goes_on_stitching r (length w) chunk ≡ true = ground arith in
      let y : Received r chunk true r₁ = rw goes at x in
      let o₁ : IsOpen (with_queues r₁ (s, q)) = record {
        handle = y.is_open.handle;
        is_open = y.is_open.is_open;
        array = y.is_open.array;
      } in
      let (r', others, d) =
        read_rest codes t (with_queues r₁ (s, q)) stream o₁ y.stitching
          (omega (arith, sum goes, actual)) (omega (arith, actual)) room in
      let (q', passes) = message_of d empty going v fits in
      (
        r₁,
        r',
        q',
        reads,
        y.thread ∙ queued_full r.receive_thread y.copy no_room,
        others,
        d.stitching,
        passes,
      )
