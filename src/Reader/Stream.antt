-- ===== src/Reader/Stream.antt =====
-- All packets of a frame, read one after the other.
use cwusb.Base.{
  ℕ, suc, ◌+◌, ◌^◌, ◌≤◌, ◌<◌, ◌≡◌, refl, ap, ◌∙◌, Bool, true, false, List, [], ◌∷◌, ◌++◌,
  append_assoc, Bytes, length, length-append, ok, ltb, arith,
}
use cwusb.Usb.{StitchPacket}
use cwusb.Reader.State.{Reader}
use cwusb.Reader.Transfers.{Transfer}
use cwusb.Reader.Loop.{ErrorCodes}
use cwusb.Reader.Fields.{psp_next, psp_first, length_psp_first}
use cwusb.Reader.Reads.{
  read_all, HasRoom, queued-keeps, queue-queued, Received, read_next, read_first,
}
use cwusb.Reader.Delivery.{IsOpen, IsCopy, goes_on_stitching}

-- The PSP sends the bytes `rest`, the first of them behind the headers `h`: full packets up to the
-- last, and none shorter than the 12 bytes that `ReceiveCallback` asks for.
pub data PspStream : Bytes → Bytes → List Bytes → Type 0 where
  last :
      {h rest w : Bytes}
      → w ≡ h ++ rest
      → 0 < length rest
      → 12 ≤ length w
      → length w ≤ 512
      → PspStream h rest (w ∷ [])
  more :
      {h rest rest' w : Bytes} {ws : List Bytes} (chunk : Bytes)
      → rest ≡ chunk ++ rest'
      → w ≡ h ++ chunk
      → length w ≡ 512
      → 0 < length rest'
      → PspStream psp_next rest' ws
      → PspStream h rest (w ∷ ws)

-- The packets hold the bytes `rest`, and all but the last are marked for stitching.
pub data Joins : Bytes → List StitchPacket → Type 0 where
  final : {rest : Bytes} {p : StitchPacket} → IsCopy rest false p → Joins rest (p ∷ [])
  join :
      {rest rest' : Bytes} {p : StitchPacket} {ps : List StitchPacket} (chunk : Bytes)
      → rest ≡ chunk ++ rest'
      → IsCopy chunk true p
      → Joins rest' ps
      → Joins rest (p ∷ ps)

-- What has become of the reader after the `n` packets of a frame.
pub record Delivered (r : Reader) (frame : Bytes) (n : ℕ) (r' : Reader) : Type 0 where
  pub is_open : IsOpen r'
  pub stitching : r'.receive_stitching ≡ false
  pub packets : List StitchPacket
  pub count : length packets ≡ n
  pub joins : Joins frame packets
  pub queue : r'.receive_thread.queue ≡ r.receive_thread.queue ++ packets
  pub message : r'.receive_thread.last_received_message ≡ r.receive_thread.last_received_message
  pub stop : r'.receive_thread.stop_request ≡ r.receive_thread.stop_request
  pub size : r'.receive_thread.max_buffer_size ≡ r.receive_thread.max_buffer_size

module _ (codes : ErrorCodes) (t : Transfer) where
  -- After the last packet of a frame.
  deliver_last :
      {r r' : Reader} {chunk : Bytes}
      → HasRoom r.receive_thread 1
      → Received r chunk false r'
      → Delivered r chunk 1 r'
  deliver_last {r} room x = record {
    is_open = x.is_open;
    stitching = x.stitching;
    packets = x.copy ∷ [];
    count = refl;
    joins = final x.good;
    queue = ap (λ q. q.queue) x.thread ∙ (queue-queued r.receive_thread x.copy 0 room).0;
    message = ap (λ q. q.last_received_message) x.thread ∙ (queued-keeps r.receive_thread x.copy).0;
    stop = ap (λ q. q.stop_request) x.thread ∙ (queued-keeps r.receive_thread x.copy).1;
    size = ap (λ q. q.max_buffer_size) x.thread ∙ (queued-keeps r.receive_thread x.copy).2;
  }

  -- After one that is followed by others.
  deliver_more :
      {r r' r'' : Reader} {frame rest : Bytes} (chunk : Bytes) (k : ℕ)
      → frame ≡ chunk ++ rest
      → HasRoom r.receive_thread (suc k)
      → Received r chunk true r'
      → Delivered r' rest k r''
      → Delivered r frame (suc k) r''
  deliver_more {r} chunk k e room x d = record {
    is_open = d.is_open;
    stitching = d.stitching;
    packets = x.copy ∷ d.packets;
    count = ap suc d.count;
    joins = join chunk e x.good d.joins;
    queue =
        d.queue
        ∙ ap (λ q. q.queue ++ d.packets) x.thread
        ∙ ap (λ q. q ++ d.packets) (queue-queued r.receive_thread x.copy k room).0
        ∙ append_assoc r.receive_thread.queue (x.copy ∷ []) d.packets;
    message =
        d.message
        ∙ ap (λ q. q.last_received_message) x.thread
        ∙ (queued-keeps r.receive_thread x.copy).0;
    stop = d.stop ∙ ap (λ q. q.stop_request) x.thread ∙ (queued-keeps r.receive_thread x.copy).1;
    size = d.size ∙ ap (λ q. q.max_buffer_size) x.thread ∙ (queued-keeps r.receive_thread x.copy).2;
  }

  room_left :
      {r r' : Reader} {chunk : Bytes} {stitch : Bool} (k : ℕ)
      → HasRoom r.receive_thread (suc k)
      → Received r chunk stitch r'
      → HasRoom r'.receive_thread k
  room_left {r} k room x = rw x.thread (queue-queued r.receive_thread x.copy k room).1

  pub read_rest :
      {rest : Bytes} {ws : List Bytes} (r : Reader)
      → PspStream psp_next rest ws
      → IsOpen r
      → r.receive_stitching ≡ true
      → r.stitching_length + length rest ≡ r.actual_length
      → r.actual_length < 2 ^ 31
      → HasRoom r.receive_thread (length ws)
      → (r' : Reader) × (read_all codes t ws r ≡ ok r') × Delivered r rest (length ws) r'
  read_rest r (last {rest} {w} e pos long small) o on total bound room =
      let (r', reads, x, _, _) = read_next codes t r o w long small rest e on (omega arith) bound in
      (r', rw reads, deliver_last room (rw (ends) at x))
    where
      ends : goes_on_stitching r (length w) rest ≡ false
      ends = ground arith
  read_rest r (more {rest} {rest' = rest'} {w} {ws} chunk split e full pos s) o on total bound
        room =
      let len : length rest ≡ length chunk + length rest' =
        omega (arith, ap length split, length-append chunk rest') in
      let (r₁, reads, x, actual, sum) =
        read_next codes t r o w (omega arith) (omega arith) chunk e on (omega arith) bound in
      let goes : goes_on_stitching r (length w) chunk ≡ true = ground arith in
      let y : Received r chunk true r₁ = rw goes at x in
      let (r', others, d) =
        read_rest r₁ s y.is_open y.stitching (omega (arith, sum goes, actual))
          (omega (arith, actual)) (room_left (length ws) room x) in
      (r', rw reads others, deliver_more chunk (length ws) split room y d)

  -- The packets of a frame of at least one and fewer than 2^31 bytes, full ones and a last one,
  -- none shorter than 12 bytes, so that a last one behind others carries 4 bytes of the frame or
  -- more, read one after the other by a reader that is open, between two frames and has room,
  -- leave it between two frames, and put the frame's bytes into the receive thread's queue, cut
  -- into as many packets, of which all but the last are marked for stitching.
  pub read_all-Delivered :
      {frame : Bytes} {ws : List Bytes} (r : Reader)
      → PspStream (psp_first (length frame)) frame ws
      → IsOpen r
      → r.receive_stitching ≡ false
      → length frame < 2 ^ 31
      → HasRoom r.receive_thread (length ws)
      → (r' : Reader) × (read_all codes t ws r ≡ ok r') × Delivered r frame (length ws) r'
  read_all-Delivered r (last {rest} {w} e pos long small) o off bound room =
      let (r', reads, x, _, _) =
        read_first codes t r o w long small rest (length rest) e pos off bound in
      (r', rw reads, deliver_last room (rw ends at x))
    where
      len : length w ≡ 24 + length rest
      len = omega (
        arith,
        ap length e,
        length-append (psp_first (length rest)) rest,
        length_psp_first (length rest),
      )

      ends : ltb 488 (length rest) ≡ false
      ends = ground (arith, len)
  read_all-Delivered r (more {rest} {rest' = rest'} {w} {ws} chunk split e full pos s) o off bound
        room =
      let len : length rest ≡ length chunk + length rest' =
        omega (arith, ap length split, length-append chunk rest') in
      let len' : length chunk ≡ 488 = omega (
        arith,
        ap length e,
        length-append (psp_first (length rest)) chunk,
        length_psp_first (length rest),
      ) in
      let (r₁, reads, x, actual, sum) =
        read_first codes t r o w (omega arith) (omega arith) chunk (length rest) e (omega arith) off
          bound in
      let goes : ltb 488 (length rest) ≡ true = ground arith in
      let y : Received r chunk true r₁ = rw goes at x in
      let (r', others, d) =
        read_rest r₁ s y.is_open y.stitching (omega (arith, sum goes, actual))
          (omega (arith, actual)) (room_left (length ws) room x) in
      (r', rw reads others, deliver_more chunk (length ws) split room y d)
