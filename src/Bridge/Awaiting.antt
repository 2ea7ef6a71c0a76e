-- ===== src/Bridge/Awaiting.antt =====
-- `USBReader` between any two packets of the frames that the PSP sends.
use cwusb.Base.{
  ◌+◌, ◌^◌, ◌≤◌, ◌<◌, ◌≡◌, refl, sym, ap, ◌∙◌, true, false, List, [], ◌∷◌, ◌++◌, append_assoc,
  append-nil, Bytes, length, length-append, ok, ltb, arith,
}
use cwusb.Usb.{StitchPacket, max_asynchronous_buffer}
use cwusb.ReceiveThread.Message.{IsUsbPacket}
use cwusb.ReceiveThread.Reassembly.{assemble, assemble_more, assemble_end}
use cwusb.ReceiveThread.Pending.{left}
use cwusb.Reader.State.{Reader}
use cwusb.Reader.Transfers.{Transfer}
use cwusb.Reader.Loop.{ErrorCodes, read_packet}
use cwusb.Reader.Fields.{psp_next, psp_first, sub_header, length_psp_first}
use cwusb.Reader.Delivery.{IsOpen, read_of, goes_on_stitching}
use cwusb.Reader.Reading.{IsAsync}
use cwusb.Reader.Reads.{Received, queued, read_first, read_next}
use cwusb.Reader.Stream.{PspStream, last, more}
use cwusb.Bridge.Frames.{PspStreams, no_frames, next_frame, PspStream-AllAsync}
use cwusb.Bridge.Joining.{length-IsCopy}

-- The frames whose last packet is still to come, and the packets that are still to come. Of the
-- first frame the bytes `pending` have been read.
pub data Awaits (r : Reader) : Bytes → List Bytes → List Bytes → Type 0 where
  between :
      {frames ws : List Bytes}
      → r.receive_stitching ≡ false
      → PspStreams frames ws
      → Awaits r [] frames ws
  within :
      {pending rest : Bytes} {frames all ws vs : List Bytes}
      → r.receive_stitching ≡ true
      → PspStream psp_next rest ws
      → r.stitching_length + length rest ≡ r.actual_length
      → r.actual_length < 2 ^ 31
      → length pending + length rest ≤ max_asynchronous_buffer
      → PspStreams frames vs
      → all ≡ ws ++ vs
      → Awaits r pending ((pending ++ rest) ∷ frames) all

-- What a read of the packet `w` makes of the reader.
pub record Advanced (r : Reader) (pending : Bytes) (frames : List Bytes) (w : Bytes)
    (later : List Bytes) (r' : Reader) : Type 0 where
  pub packet : StitchPacket
  pub valid : IsUsbPacket packet
  pub small : length pending + packet.length ≤ max_asynchronous_buffer
  pub queue : r'.receive_thread ≡ queued r.receive_thread packet
  pub is_open : IsOpen r'
  pub async : IsAsync w
  pub others : List Bytes
  pub makes : frames ≡ assemble pending (packet ∷ []) ++ others
  pub awaits : Awaits r' (left pending (packet ∷ [])) others later

module _ {r r' : Reader} {w chunk pending : Bytes} {frames later : List Bytes} (async : IsAsync w)
    (small : length pending + length chunk ≤ max_asynchronous_buffer) where
  -- The last packet of a frame.
  ends_frame :
      PspStreams frames later
      → Received r chunk false r'
      → Advanced r pending ((pending ++ chunk) ∷ frames) w later r'
  ends_frame streams x = record {
    packet = x.copy;
    valid = x.good.valid;
    small = omega (arith, length-IsCopy x.good);
    queue = x.thread;
    is_open = x.is_open;
    async = async;
    others = frames;
    makes =
        ap (λ m. (pending ++ m) ∷ frames) (sym x.good.holds)
        ∙ ap (λ m. m ++ frames) (sym (assemble_end pending x.copy [] x.good.flag));
    awaits = rw x.good.flag (between x.stitching streams);
  }

  -- One that is followed by others.
  goes_on_frame :
      {rest : Bytes} {ws vs : List Bytes}
      → Received r chunk true r'
      → PspStream psp_next rest ws
      → r'.stitching_length + length rest ≡ r'.actual_length
      → r'.actual_length < 2 ^ 31
      → length (pending ++ chunk) + length rest ≤ max_asynchronous_buffer
      → PspStreams frames vs
      → later ≡ ws ++ vs
      → Advanced r pending ((pending ++ (chunk ++ rest)) ∷ frames) w later r'
  goes_on_frame {rest} x stream total bound fits streams split = record {
    packet = x.copy;
    valid = x.good.valid;
    small = omega (arith, length-IsCopy x.good);
    queue = x.thread;
    is_open = x.is_open;
    async = async;
    others = ((pending ++ chunk) ++ rest) ∷ frames;
    makes =
        ap (λ m. m ∷ frames) (sym (append_assoc pending chunk rest))
        ∙ ap (λ m. m ++ (((pending ++ chunk) ++ rest) ∷ frames))
            (sym (assemble_more pending x.copy [] x.good.flag));
    awaits =
        rw (x.good.flag, x.good.holds) (within x.stitching stream total bound fits streams split);
  }

same_packets :
    {w w' : Bytes} {ws later : List Bytes} → w' ∷ ws ≡ w ∷ later → (w' ≡ w) × (ws ≡ later)
same_packets e = ground (arith, e)

no_packets : {w : Bytes} {later : List Bytes} → ◌≡◌ {A = List Bytes} [] (w ∷ later) → ⊥
no_packets e = ground (arith, e)

module _ (codes : ErrorCodes) (t : Transfer) (r : Reader) (o : IsOpen r) where
  -- The first packet of a frame.
  read_first_packet :
      {frame : Bytes} {frames ws vs : List Bytes} {w : Bytes} {later : List Bytes}
      → r.receive_stitching ≡ false
      → PspStream (psp_first (length frame)) frame ws
      → length frame ≤ max_asynchronous_buffer
      → PspStreams frames vs
      → ws ++ vs ≡ w ∷ later
      → (r' : Reader) × (read_packet codes r (read_of w) t ≡ ok (r', []))
        × Advanced r [] (frame ∷ frames) w later r'
  read_first_packet off (last {rest} {w} e pos long small) fits streams split =
      let (same, others) = same_packets split in
      let len : length w ≡ 24 + length rest = omega (
        arith,
        ap length e,
        length-append (psp_first (length rest)) rest,
        length_psp_first (length rest),
      ) in
      let ends : ltb 488 (length rest) ≡ false = ground (arith, len) in
      let async = (PspStream-AllAsync (sub_header (length rest)) refl (last e pos long small)).0 in
      let (r', reads, x, _, _) =
        read_first codes t r o w long small rest (length rest) e pos off (omega arith) in
      rw (← same, ← others) (r', reads, ends_frame async (omega arith) streams (rw ends at x))
  read_first_packet off (more {rest} {rest' = rest'} {w} {ws} chunk cut e full pos s) fits streams
        split =
      let (same, others) = same_packets split in
      let len : length rest ≡ length chunk + length rest' =
        omega (arith, ap length cut, length-append chunk rest') in
      let len' : length chunk ≡ 488 = omega (
        arith,
        ap length e,
        length-append (psp_first (length rest)) chunk,
        length_psp_first (length rest),
      ) in
      let goes : ltb 488 (length rest) ≡ true = ground (arith, len, len') in
      let async =
        (PspStream-AllAsync (sub_header (length rest)) refl (more chunk cut e full pos s)).0 in
      let (r', reads, x, actual, sum) =
        read_first codes t r o w (omega arith) (omega arith) chunk (length rest) e (omega arith) off
          (omega arith) in
      rw (← same, cut)
        (
          r',
          reads,
          goes_on_frame async (omega arith) (rw goes at x) s (omega (arith, sum goes, actual))
              (omega (arith, actual)) (omega arith) streams (sym others),
        )

  -- A packet behind the first.
  read_later_packet :
      {pending rest : Bytes} {frames ws vs : List Bytes} {w : Bytes} {later : List Bytes}
      → r.receive_stitching ≡ true
      → PspStream psp_next rest ws
      → r.stitching_length + length rest ≡ r.actual_length
      → r.actual_length < 2 ^ 31
      → length pending + length rest ≤ max_asynchronous_buffer
      → PspStreams frames vs
      → ws ++ vs ≡ w ∷ later
      → (r' : Reader) × (read_packet codes r (read_of w) t ≡ ok (r', []))
        × Advanced r pending ((pending ++ rest) ∷ frames) w later r'
  read_later_packet {pending} on (last {rest} {w} e pos long small) total bound fits streams split =
      let (same, others) = same_packets split in
      let ends : goes_on_stitching r (length w) rest ≡ false = ground arith in
      let async = (PspStream-AllAsync [] (sym (append-nil psp_next)) (last e pos long small)).0 in
      let (r', reads, x, _, _) = read_next codes t r o w long small rest e on (omega arith) bound in
      rw (← same, ← others) (r', reads, ends_frame async (omega arith) streams (rw ends at x))
  read_later_packet {pending} on (more {rest} {rest' = rest'} {w} {ws} chunk cut e full pos s) total
        bound fits streams split =
      let (same, others) = same_packets split in
      let len : length rest ≡ length chunk + length rest' =
        omega (arith, ap length cut, length-append chunk rest') in
      let (r', reads, x, actual, sum) =
        read_next codes t r o w (omega arith) (omega arith) chunk e on (omega arith) bound in
      let goes : goes_on_stitching r (length w) chunk ≡ true = ground arith in
      let async =
        (PspStream-AllAsync [] (sym (append-nil psp_next)) (more chunk cut e full pos s)).0 in
      rw (← same, cut)
        (
          r',
          reads,
          goes_on_frame async (omega arith) (rw goes at x) s (omega (arith, sum goes, actual))
              (omega (arith, actual)) (omega (arith, length-append pending chunk)) streams
              (sym others),
        )

  -- The next packet of the frames is read as one of the user's channel, and takes the reader to
  -- where it waits for the one behind it.
  pub read_packet-Advanced :
      {pending : Bytes} {frames : List Bytes} {w : Bytes} {later all : List Bytes}
      → Awaits r pending frames all
      → all ≡ w ∷ later
      → (r' : Reader) × (read_packet codes r (read_of w) t ≡ ok (r', []))
        × Advanced r pending frames w later r'
  read_packet-Advanced (between off no_frames) split = absurd (no_packets split)
  read_packet-Advanced (between off (next_frame stream fits streams)) split =
      read_first_packet off stream fits streams split
  read_packet-Advanced (within on stream total bound fits streams cut) split =
      read_later_packet on stream total bound fits streams (sym cut ∙ split)
