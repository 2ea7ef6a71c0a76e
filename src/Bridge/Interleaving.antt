-- ===== src/Bridge/Interleaving.antt =====
-- Both directions at once, with the passes of the four threads in any order.
use cwusb.Base.{
  ℕ, ◌<◌, ◌≡◌, refl, ◌⊎◌, inl, inr, true, List, [], ◌∷◌, ◌++◌, map, Bytes, length, Option, none, ok,
  arith,
}
use cwusb.Usb.{StitchPacket}
use cwusb.ReceiveThread
use cwusb.ReceiveThread.{ReceiveThread}
use cwusb.ReceiveThread.Message.{IsMessage, contents, length-contents}
use cwusb.ReceiveThread.Reassembly.{Fits, run_once_room, run_passes-assemble}
use cwusb.SendThread.Interleaving.{queue-cases}
use cwusb.SendThread
use cwusb.SendThread.{SendThread}
use cwusb.SendThread.Packets.{IsFrame}
use cwusb.SendThread.Cutting.{frame_of}
use cwusb.SendThread.Frames.{All, Streams, run_once-OfFrame}
use cwusb.Reader.State.{Reader}
use cwusb.Reader.Transfers.{Write}
use cwusb.Reader.Loop
use cwusb.Reader.Loop.{ErrorCodes}
use cwusb.Reader.Delivery.{read_of}
use cwusb.Reader.Running.{goes_on-IsReading}
use cwusb.Reader.Sending.{IsTaken}
use cwusb.Reader.Writing.{write_of}
use cwusb.XLinkKai.Connection.{Addresses, Output}
use cwusb.Bridge.Frames.{PspStreams}
use cwusb.Bridge.Awaiting.{Awaits, between, within}
use cwusb.Bridge.Passes.{pass-Advanced}
use cwusb.Bridge.System.{System, Runs, datagram_of, ethernet_bytes}
use cwusb.Bridge.Together.{IsReady, Works, Runs-Works}
use cwusb.Reader.Fields.{psp_next}
use cwusb.Reader.Stream.{PspStream, last, more}

-- The frames that are still to come, in the packets `later`: all of them whole, or all but the first
-- bytes `pending` of the first one.
pub data ToCome : List Bytes → List Bytes → Type 0 where
  whole : {others later : List Bytes} → PspStreams others later → ToCome others later
  partly :
      {others ws vs : List Bytes} (pending rest : Bytes)
      → 0 < length ws
      → PspStream psp_next rest ws
      → PspStreams others vs
      → ToCome ((pending ++ rest) ∷ others) (ws ++ vs)

pub PspStream-pos : {h rest : Bytes} {ws : List Bytes} → PspStream h rest ws → 0 < length ws
PspStream-pos (last e pos long small) = omega arith
PspStream-pos (more chunk cut_up e full pos others) = omega arith

Awaits-ToCome :
    {r : Reader} {pending : Bytes} {others later : List Bytes}
    → Awaits r pending others later
    → ToCome others later
Awaits-ToCome (between off streams) = whole streams
Awaits-ToCome (within {pending} {rest} on stream total bound fits streams split) =
    rw split (partly pending rest (PspStream-pos stream) stream streams)

module _ {a : Addresses} (codes : ErrorCodes) {start s : System a} {ws taken frames : List Bytes}
    {writes : List Write} {out : List (Output a)} (later : List Bytes) (i : IsReady start)
    (runs : Runs codes start ws taken writes out s) (sends : PspStreams frames (ws ++ later)) where
  pub works : Works frames later taken writes out s
  works = Runs-Works codes later runs sends i

  -- In whatever order the reader, the receive thread, the send thread and the connection's thread
  -- make their passes, the datagrams that the receive thread has sent are those of the first
  -- frames of the PSP's, one for each and in their order, and as many passes of its own as its
  -- queue has packets make the next frames, just so. The frames behind these, `others`, are those
  -- with packets that are not read yet: all packets of all of them are still to come, or all of
  -- all but the first one, of which the last packets are. The conditions are that all starts idle
  -- and between two frames, with the device open and checked, no stop requested, no error and
  -- restarts left, that the PSP sends frames of 1 to 2304 bytes in full packets and a last one,
  -- none of them shorter than 12 bytes, so that a last packet behind others carries 4 bytes of its
  -- frame or more, that a packet is only read while the receive thread's queue has room, that
  -- reads find the next packet or wait in vain, that libusb takes the writes, that the
  -- connection's thread neither throws nor hands over a frame that does not fit its array, and
  -- that the connection is up and the socket takes the datagram when the receive thread makes a
  -- pass.
  pub psp_frames_interleaved :
      (sent queued others : List Bytes) × (t : ReceiveThread) × (frames
        ≡ (sent ++ queued) ++ others)
      × (map datagram_of out ≡ map ethernet_bytes sent)
      × (ReceiveThread.run_passes (length s.reader.receive_thread.queue) s.reader.receive_thread
          ≡ ok (t, queued))
      × (t.queue ≡ [])
      × ToCome others later
  psp_frames_interleaved =
      let x = works in
      let (t, passes, empty, _) =
        run_passes-assemble s.reader.receive_thread.queue s.reader.receive_thread refl
          x.receives.running x.receives.message x.receives.fits in
      (
        x.receives.sent,
        _,
        x.others,
        t,
        x.receives.total,
        x.receives.output,
        passes,
        empty,
        Awaits-ToCome x.awaits,
      )

  -- In whatever order the reader, the receive thread, the send thread and the connection's thread
  -- make their passes, what was written to the PSP are the packets of the frames that the send
  -- thread's queue took from the connection's thread, up to some point, one frame after the other:
  -- the packets that still wait continue them, and the frames behind that point are those in the
  -- queue. The conditions are that all starts idle and between two frames, with the device open
  -- and checked, no stop requested, no error and restarts left, that the PSP sends frames of 1 to
  -- 2304 bytes in full packets and a last one, none of them shorter than 12 bytes, so that a last
  -- packet behind others carries 4 bytes of its frame or more, that a packet is only read while
  -- the receive thread's queue has room, that reads find the next packet or wait in vain, that
  -- libusb takes the writes, that the connection's thread neither throws nor hands over a frame
  -- that does not fit its array, and that the connection is up and the socket takes the datagram
  -- when the receive thread makes a pass.
  pub xlink_kai_frames_interleaved :
      (done : List Bytes) × (popped : List StitchPacket) × (taken
        ≡ done ++ map frame_of s.reader.send_thread.queue)
      × (writes ≡ map write_of popped)
      × Streams done (popped ++ s.reader.send_thread.outgoing_queue)
  xlink_kai_frames_interleaved =
      let x = works in
      (x.emits.cuts.done, x.emits.popped, x.emits.cuts.order, x.emits.written, x.emits.cuts.streams)

module _ (t : ReceiveThread) where
  receive_idle : t.queue ≡ [] → ReceiveThread.run_once t ≡ ok (t, none)
  unfolding ReceiveThread.run_once
  receive_idle empty = ground (arith, empty)

  receive_goes_on :
      IsMessage t.last_received_message
      → Fits (contents t.last_received_message) t.queue
      → (t' : ReceiveThread) × (sent : Option Bytes) × (ReceiveThread.run_once t ≡ ok (t', sent))
  receive_goes_on v fits = elim (queue-cases t.queue) [
    | inl empty ↦ (t, none, receive_idle empty)
    | inr (p, rest, front) ↦
        let held : Fits (contents t.last_received_message) (p ∷ rest) = rw front at fits in
        let (t', sent, x) =
          run_once_room t p rest front v held.0
            (omega (arith, held.1, length-contents t.last_received_message p v held.0)) in
        (t', sent, x.pass)
  ]

send_idle : (s : SendThread) → s.queue ≡ [] → SendThread.run_once s ≡ ok s
unfolding SendThread.run_once
send_idle s empty = ground (arith, empty)

send_goes_on :
    (s : SendThread) → All IsFrame s.queue → (s' : SendThread) × (SendThread.run_once s ≡ ok s')
send_goes_on s fs = elim (queue-cases s.queue) [
  | inl empty ↦ (s, send_idle s empty)
  | inr (front, rest, q) ↦
      let (f, _) : All IsFrame (front ∷ rest) = rw q at fs in
      let (ps, once, of) = run_once-OfFrame s front rest q f in (_, once)
]

-- Wherever the four threads have got to, under the conditions of `psp_frames_interleaved`, none of
-- them is stuck: the reader's loop goes on, its next pass reads the next packet of the PSP's and,
-- unless that leaves it within a frame, writes all packets that wait, and the next passes of the
-- receive thread and of the send thread stay within their arrays.
pub Runs_continue :
    {a : Addresses} (codes : ErrorCodes) {start s : System a} {ws taken frames : List Bytes}
    {writes : List Write} {out : List (Output a)} (w : Bytes) (later : List Bytes) (e : Loop.Events)
    → IsReady start
    → Runs codes start ws taken writes out s
    → PspStreams frames (ws ++ (w ∷ later))
    → e.read ≡ read_of w
    → ((j : ℕ) → IsTaken (e.writes j))
    → (r' : Reader) × (wrote : List Write) × (Loop.goes_on s.reader ≡ true)
      × (Loop.pass codes s.reader e ≡ ok (r', wrote))
      × ((r'.receive_stitching ≡ true) ⊎ (r'.send_thread.outgoing_queue ≡ []))
      × ((t : ReceiveThread) × (sent : Option Bytes) × (ReceiveThread.run_once
              s.reader.receive_thread
            ≡ ok (t, sent)))
      × ((t : SendThread) × (SendThread.run_once s.reader.send_thread ≡ ok t))
Runs_continue codes {s = s} w later e i runs sends reads takes =
    let x = works codes (w ∷ later) i runs sends in
    let (r₁, r', wrote, passes, _, _, _, y) =
      pass-Advanced codes s.reader e x.reading x.emits.whole takes x.awaits reads in
    (
      r',
      wrote,
      goes_on-IsReading s.reader x.reading,
      passes,
      rw y.after y.empties,
      receive_goes_on s.reader.receive_thread x.receives.message x.receives.fits,
      send_goes_on s.reader.send_thread x.emits.cuts.waiting,
    )
