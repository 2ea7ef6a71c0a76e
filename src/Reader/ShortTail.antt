-- ===== src/Reader/ShortTail.antt =====
-- A frame whose last packet is shorter than the header of a HostFS command.
use cwusb.Base.{
  ◌+◌, ◌<◌, ◌≡◌, refl, ap, ◌∙◌, true, false, [], ◌∷◌, ◌++◌, Bytes, length, length-append, ok, ltb,
  gt→leb, arith,
}
use cwusb.Usb.{StitchPacket}
use cwusb.Reader.State.{Reader}
use cwusb.Reader.Transfers.{Transfer}
use cwusb.Reader.Receive.{receive_callback}
use cwusb.Reader.Loop.{ErrorCodes, read_packet}
use cwusb.Reader.Fields.{psp_next, psp_first, length_psp_next, length_psp_first}
use cwusb.Reader.Delivery.{read_of, IsOpen, loaded, read_packet-loaded, IsCopy}
use cwusb.Reader.Reads.{read_all, HasRoom, read_first, Received, queue-queued}

-- A packet of fewer than 12 bytes leaves no trace but in the buffer.
read_packet_short :
    (codes : ErrorCodes) (t : Transfer) (r : Reader) (w : Bytes)
    → IsOpen r
    → 0 < length w
    → length w < 12
    → read_packet codes r (read_of w) t ≡ ok (record (loaded r w) { length = 0 }, [])
unfolding receive_callback
read_packet_short codes t r w o pos short =
    read_packet-loaded codes r w t o pos (omega arith) ∙ rw (gt→leb 12 (length w) short)

-- What the reader has left of a frame whose end it did not take.
pub record IsStuck (r : Reader) (chunk : Bytes) (r' : Reader) : Type 0 where
  pub stitching : r'.receive_stitching ≡ true
  pub taken : StitchPacket
  pub holds : IsCopy chunk true taken
  pub queue : r'.receive_thread.queue ≡ r.receive_thread.queue ++ (taken ∷ [])

-- When the packets of a frame are a full one and one with a tail of one to three bytes, the tail
-- is thrown away: with the device open, the reader between two frames and room for two packets,
-- both are read, the queue has only the first more, marked for stitching, and the reader still
-- waits for the frame's end.
pub read_all_short_tail :
    (codes : ErrorCodes) (t : Transfer) (r : Reader) (chunk tail : Bytes)
    → length chunk ≡ 488
    → 0 < length tail
    → length tail < 4
    → IsOpen r
    → r.receive_stitching ≡ false
    → HasRoom r.receive_thread 2
    → (r' : Reader) × (read_all codes t
          ((psp_first (length (chunk ++ tail)) ++ chunk) ∷ (psp_next ++ tail) ∷ [])
          r
        ≡ ok r')
      × IsStuck r chunk r'
read_all_short_tail codes t r chunk tail len pos short o off room =
    let total : length (chunk ++ tail) ≡ 488 + length tail =
      omega (arith, length-append chunk tail) in
    let w : Bytes = psp_first (length (chunk ++ tail)) ++ chunk in
    let long : length w ≡ 512 = omega (
      arith,
      length-append (psp_first (length (chunk ++ tail))) chunk,
      length_psp_first (length (chunk ++ tail)),
    ) in
    let (r₁, reads, x, _, _) =
      read_first codes t r o w (omega arith) (omega arith) chunk (length (chunk ++ tail)) refl
        (omega arith) off (omega arith) in
    let goes : ltb 488 (length (chunk ++ tail)) ≡ true = ground arith in
    let y : Received r chunk true r₁ = rw goes at x in
    (
      record (loaded r₁ (psp_next ++ tail)) { length = 0 },
      rw (
        reads,
        read_packet_short codes t r₁ (psp_next ++ tail) y.is_open
            (omega (arith, length-append psp_next tail, length_psp_next))
            (omega (arith, length-append psp_next tail, length_psp_next)),
      ),
      record {
        stitching = y.stitching;
        taken = y.copy;
        holds = y.good;
        queue = ap (λ q. q.queue) y.thread ∙ (queue-queued r.receive_thread y.copy 1 room).0;
      },
    )
