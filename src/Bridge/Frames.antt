-- ===== src/Bridge/Frames.antt =====
-- Any number of frames from the PSP, each in its packets: `USBReader` and `USBReceiveThread`.
use cwusb.Base.{
  ℕ, ◌+◌, ◌≤◌, ◌≡◌, refl, sym, ap, ◌∙◌, false, List, [], ◌∷◌, ◌++◌, append_assoc, append-nil, Bytes,
  length, length-append, ok, to_size, inl, inr, Result-cases, arith,
}
use cwusb.Usb.{StitchPacket, max_asynchronous_buffer}
use cwusb.ReceiveThread
use cwusb.ReceiveThread.{ReceiveThread}
use cwusb.ReceiveThread.Message.{IsMessage, contents}
use cwusb.ReceiveThread.Reassembly.{assemble, Fits, run_passes-assemble}
use cwusb.Reader.State.{Reader}
use cwusb.Reader.Transfers.{Transfer, Write}
use cwusb.Reader.Loop.{ErrorCodes, read_packet}
use cwusb.Reader.Fields.{psp_next, psp_first, sub_header}
use cwusb.Reader.Delivery.{IsOpen, read_of}
use cwusb.Reader.Reading.{AllAsync}
use cwusb.Reader.Reads.{HasRoom, read_all}
use cwusb.Reader.Stream.{PspStream, last, more, Delivered, read_all-Delivered}
use cwusb.Bridge.Joining.{assemble-Joins, Joins-Fits}

-- The frames and the packets in which the PSP sends them, one frame after the other.
pub data PspStreams : List Bytes → List Bytes → Type 0 where
  no_frames : PspStreams [] []
  next_frame :
      {frame : Bytes} {frames ws vs : List Bytes}
      → PspStream (psp_first (length frame)) frame ws
      → length frame ≤ max_asynchronous_buffer
      → PspStreams frames vs
      → PspStreams (frame ∷ frames) (ws ++ vs)

-- What has become of the reader after the `n` packets of the frames.
pub record Queued (r : Reader) (frames : List Bytes) (n : ℕ) (r' : Reader) : Type 0 where
  pub is_open : IsOpen r'
  pub stitching : r'.receive_stitching ≡ false
  pub packets : List StitchPacket
  pub count : length packets ≡ n
  pub queue : r'.receive_thread.queue ≡ r.receive_thread.queue ++ packets
  pub message : r'.receive_thread.last_received_message ≡ r.receive_thread.last_received_message
  pub stop : r'.receive_thread.stop_request ≡ r.receive_thread.stop_request
  pub makes : assemble [] packets ≡ frames
  pub fits : Fits [] packets

module _ (codes : ErrorCodes) (t : Transfer) where
  read_all-step :
      (w : Bytes) (ws : List Bytes) (r : Reader) {r₁ : Reader} {writes : List Write}
      → read_packet codes r (read_of w) t ≡ ok (r₁, writes)
      → read_all codes t (w ∷ ws) r ≡ read_all codes t ws r₁
  read_all-step w ws r reads = rw reads

  read_all-append :
      (ws vs : List Bytes) (r : Reader) {r' : Reader}
      → read_all codes t ws r ≡ ok r'
      → read_all codes t (ws ++ vs) r ≡ read_all codes t vs r'
  read_all-append [] vs r e = ground (arith, e)
  read_all-append (w ∷ ws) vs r e = elim (Result-cases (read_packet codes r (read_of w) t)) [
    | inl ((r₁, writes), reads) ↦
        read_all-step w (ws ++ vs) r reads
        ∙ read_all-append ws vs r₁ (sym (read_all-step w ws r reads) ∙ e)
    | inr (f, fails) ↦ absurd (ground (arith, fails, e))
  ]

  room_after :
      {r r₁ : Reader} {frame : Bytes} {n : ℕ} (k : ℕ)
      → Delivered r frame n r₁
      → HasRoom r.receive_thread (n + k)
      → HasRoom r₁.receive_thread k
  room_after {r} k d room = omega (
    arith,
    ap length d.queue,
    length-append r.receive_thread.queue d.packets,
    d.count,
    ap to_size d.size,
  )

  queue_frame :
      {r r₁ r' : Reader} {frame : Bytes} {frames : List Bytes} {n k : ℕ}
      → length frame ≤ max_asynchronous_buffer
      → Delivered r frame n r₁
      → Queued r₁ frames k r'
      → Queued r (frame ∷ frames) (n + k) r'
  queue_frame {r} {frame = frame} fits d q = record {
    is_open = q.is_open;
    stitching = q.stitching;
    packets = d.packets ++ q.packets;
    count = omega (arith, length-append d.packets q.packets, d.count, q.count);
    queue =
        q.queue
        ∙ ap (λ x. x ++ q.packets) d.queue
        ∙ append_assoc r.receive_thread.queue d.packets q.packets;
    message = q.message ∙ d.message;
    stop = q.stop ∙ d.stop;
    makes = assemble-Joins [] q.packets d.joins ∙ ap (λ x. frame ∷ x) q.makes;
    fits = Joins-Fits [] q.packets d.joins (omega arith) q.fits;
  }

  -- A reader that is between two frames and has room puts packets into the receive thread's queue
  -- of which the frames are assembled.
  pub read_all-Queued :
      {frames ws : List Bytes} (r : Reader)
      → PspStreams frames ws
      → IsOpen r
      → r.receive_stitching ≡ false
      → HasRoom r.receive_thread (length ws)
      → (r' : Reader) × (read_all codes t ws r ≡ ok r') × Queued r frames (length ws) r'
  read_all-Queued r (no_frames) o off room = (
    r,
    refl,
    record {
      is_open = o;
      stitching = off;
      packets = [];
      count = refl;
      queue = sym (append-nil r.receive_thread.queue);
      message = refl;
      stop = refl;
      makes = refl;
      fits = tt;
    },
  )
  read_all-Queued r (next_frame {ws = ws} {vs} stream small others) o off room =
      let sum : length (ws ++ vs) ≡ length ws + length vs = length-append ws vs in
      let (r₁, reads, d) = read_all-Delivered codes t r stream o off (omega arith) (omega arith) in
      let (r', others_read, q) =
        read_all-Queued r₁ others d.is_open d.stitching
          (room_after (length vs) d (rw (sym sum) room)) in
      (r', read_all-append ws vs r reads ∙ others_read, rw sum (queue_frame small d q))

-- Every packet starts with the magic and the channel of the user's data.
pub PspStream-AllAsync :
    {h rest : Bytes} {ws : List Bytes} (behind : Bytes)
    → h ≡ psp_next ++ behind
    → PspStream h rest ws
    → AllAsync ws
PspStream-AllAsync behind e (last {rest = rest} split pos long small) = (
  record {
    rest = behind ++ rest;
    starts = split ∙ ap (λ x. x ++ rest) e ∙ append_assoc psp_next behind rest;
    long = long;
    small = small;
  },
  tt,
)
PspStream-AllAsync behind e (more chunk split split' full pos others) = (
  record {
    rest = behind ++ chunk;
    starts = split' ∙ ap (λ x. x ++ chunk) e ∙ append_assoc psp_next behind chunk;
    long = omega (arith, full);
    small = omega (arith, full);
  },
  PspStream-AllAsync [] (sym (append-nil psp_next)) others,
)

AllAsync-append : (ws vs : List Bytes) → AllAsync ws → AllAsync vs → AllAsync (ws ++ vs)
AllAsync-append [] vs p q = q
AllAsync-append (w ∷ ws) vs (p, ps) q = (p, AllAsync-append ws vs ps q)

pub PspStreams-AllAsync : {frames ws : List Bytes} → PspStreams frames ws → AllAsync ws
PspStreams-AllAsync no_frames = tt
PspStreams-AllAsync (next_frame {frame} {ws = ws} {vs} stream small others) =
    AllAsync-append ws vs (PspStream-AllAsync (sub_header (length frame)) refl stream)
      (PspStreams-AllAsync others)

-- The receive thread between two frames, with nothing queued.
pub record IsIdle (t : ReceiveThread) : Type 0 where
  pub no_packets : t.queue ≡ []
  pub message : IsMessage t.last_received_message
  pub no_bytes : t.last_received_message.length ≡ 0
  pub running : t.stop_request ≡ false

-- The receive thread makes exactly the frames of the packets.
pub run_passes-Queued :
    {r r' : Reader} {frames : List Bytes} {n : ℕ}
    → IsIdle r.receive_thread
    → Queued r frames n r'
    → (t : ReceiveThread) × (ReceiveThread.run_passes n r'.receive_thread ≡ ok (t, frames))
      × (t.queue ≡ [])
run_passes-Queued {r} {r'} i q =
    let same = q.message in
    let empty : contents r'.receive_thread.last_received_message ≡ [] = rw (same, i.no_bytes) in
    let queue : r'.receive_thread.queue ≡ q.packets =
      q.queue ∙ ap (λ x. x ++ q.packets) i.no_packets in
    let (t, passes, left, _) =
      run_passes-assemble q.packets r'.receive_thread queue (q.stop ∙ i.running) (rw same i.message)
        (rw empty q.fits) in
    (
      t,
      ap (λ k. ReceiveThread.run_passes k r'.receive_thread) (sym q.count)
          ∙ passes
          ∙ ap (λ m. ok (t, m)) (rw empty q.makes),
      left,
    )
