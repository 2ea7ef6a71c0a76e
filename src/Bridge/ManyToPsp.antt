-- ===== src/Bridge/ManyToPsp.antt =====
-- Any number of frames from XLink Kai to the PSP.
use cwusb.Base.{
  ℕ, suc, ◌+◌, ◌≤◌, ◌≡◌, refl, sym, ap, ap₂, ◌∙◌, Bool, true, false, List, [], ◌∷◌, ◌++◌,
  append-nil, append_assoc, map, some, Bytes, length, length-append, to_size, Result, ok, ◌>>=◌,
  arith,
}
use cwusb.Usb.{StitchPacket, WifiPacket, max_asynchronous_buffer}
use cwusb.SendThread
use cwusb.SendThread.{SendThread}
use cwusb.SendThread.Packets.{IsFrame}
use cwusb.SendThread.Cutting.{frame_of}
use cwusb.SendThread.Frames.{All, Streams, add_to_queue-accepts, run_passes-Streams}
use cwusb.Reader.State.{Reader}
use cwusb.Reader.Transfers.{Transfer, handle_asynchronous_send}
use cwusb.Reader.Writing.{write_of, handle_asynchronous_send-writes}
use cwusb.Reader.Control.{send}
use cwusb.XLinkKai.Protocol.{ethernet_data_string}
use cwusb.XLinkKai.Connection.{Addresses, Connection, Output, to_usb}
use cwusb.XLinkKai.Receive.{receive_callback, start_receiver_thread}
use cwusb.XLinkKai.Receive.Ethernet.{after_frame, receive_callback-frame}
use cwusb.Bridge.ToPsp.{IsIdle}

-- The callback for one datagram after the other, each at its time.
unfoldable pub receive_each :
    {a : Addresses}
    → Connection a
    → (ℕ → ℕ)
    → ℕ
    → List Bytes
    → Bool
    → Result (Connection a × List (Output a))
receive_each c now i [] fails = ok (c, [])
receive_each c now i (d ∷ ds) fails = receive_callback c (now i) d fails >>= λ (c', out).
    receive_each c' now (i + 1) ds fails >>= λ (c'', more). ok (c'', out ++ more)

-- What the callback hands to the reader, frame by frame.
unfoldable pub send_each : Reader → List Bytes → Result Reader
send_each r [] = ok r
send_each r (frame ∷ frames) = send r frame >>= λ r'. send_each r' frames

abbrev pub ethernet_text : Bytes → Bytes
ethernet_text frame = ethernet_data_string ++ frame

abbrev pub IsShort : Bytes → Type 0
IsShort frame = length frame ≤ max_asynchronous_buffer

module _ {a : Addresses} where
  after_frame-up :
      (c : Connection a) (now : ℕ) (frame : Bytes)
      → c.connected ≡ true
      → c.incoming_connection ≡ true
      → ((after_frame c now frame).connected ≡ true)
        × ((after_frame c now frame).incoming_connection ≡ true)
  unfolding start_receiver_thread
  after_frame-up c now frame up incoming = ground (arith, up, incoming)

  receive_each-frames :
      (now : ℕ → ℕ) (fails : Bool) (frames : List Bytes) (i : ℕ) (c : Connection a)
      → c.connected ≡ true
      → c.incoming_connection ≡ true
      → (c' : Connection a) × (receive_each c now i (map ethernet_text frames) fails
          ≡ ok (c', map to_usb frames))
        × (c'.connected ≡ true)
  unfolding receive_each
  receive_each-frames now fails [] i c up incoming = (c, refl, up)
  receive_each-frames now fails (frame ∷ frames) i c up incoming =
      let (up', incoming') = after_frame-up c (now i) frame up incoming in
      let (c', received, still) =
        receive_each-frames now fails frames (i + 1) (after_frame c (now i) frame) up' incoming' in
      (c', rw (receive_callback-frame c (now i) frame fails up incoming, received), still)

send_each-step :
    (r : Reader) (frame : Bytes) (frames : List Bytes) {s : SendThread}
    → r.has_threads ≡ true
    → SendThread.add_to_queue r.send_thread frame ≡ ok (s, true)
    → send_each r (frame ∷ frames) ≡ send_each (record r { send_thread = s }) frames
unfolding send_each send
send_each-step r frame frames threads accepted = ground (arith, threads, accepted)

abbrev with_queue : Reader → List WifiPacket → Reader
with_queue r queue = record r { send_thread = record r.send_thread { queue = queue } }

-- The send thread's queue takes all frames, as they are.
record Taken (r : Reader) (frames : List Bytes) (r' : Reader) : Type 0 where
  packets : List WifiPacket
  good : All IsFrame packets
  same : map frame_of packets ≡ frames
  after : r' ≡ with_queue r (r.send_thread.queue ++ packets)

send_each-Taken :
    (frames : List Bytes) (r : Reader)
    → r.has_threads ≡ true
    → length r.send_thread.queue + length frames ≤ to_size r.send_thread.max_buffer_size
    → All IsShort frames
    → (r' : Reader) × (send_each r frames ≡ ok r') × Taken r frames r'
unfolding send_each
send_each-Taken [] r threads room short = (
  r,
  refl,
  record {
    packets = [];
    good = tt;
    same = refl;
    after = ap (with_queue r) (sym (append-nil r.send_thread.queue));
  },
)
send_each-Taken (frame ∷ frames) r threads room (short, shorts) =
    let (p, accepted, good, same) = add_to_queue-accepts r.send_thread frame (omega arith) short in
    let s : SendThread = record r.send_thread { queue = r.send_thread.queue ++ (p ∷ []) } in
    let (r', sent, x) =
      send_each-Taken frames (record r { send_thread = s }) threads
        (omega (arith, length-append r.send_thread.queue (p ∷ []))) shorts in
    (
      r',
      send_each-step r frame frames threads accepted ∙ sent,
      record {
        packets = p ∷ x.packets;
        good = (good, x.good);
        same = ap₂ (λ f fs. f ∷ fs) same x.same;
        after = x.after ∙ ap (with_queue r) (append_assoc r.send_thread.queue (p ∷ []) x.packets);
      },
    )

length-map : (ps : List WifiPacket) → length (map frame_of ps) ≡ length ps
length-map [] = refl
length-map (p ∷ ps) = ap suc (length-map ps)

-- The datagrams `e;e;` with frames of at most 2304 bytes, received one after the other while the
-- connection is up and has its USB side set, are handed on frame by frame; once the reader's
-- threads are started, an idle send thread that is not to stop and whose queue has room for all
-- takes them, and as many passes as there are frames cut them into packets that carry the frames'
-- bytes in their order, which `HandleAsynchronousSend` writes to the PSP, one after the other, if
-- the device is open and no stop is requested. The loop calls it between two frames from the PSP.
pub xlink_kai_frames_reach_psp :
    {a : Addresses} (c : Connection a) (now : ℕ → ℕ) (fails : Bool) (frames : List Bytes)
    (r : Reader) {handle : ℕ} (outcome : ℕ → Transfer)
    → c.connected ≡ true
    → c.incoming_connection ≡ true
    → All IsShort frames
    → length frames ≤ to_size r.send_thread.max_buffer_size
    → r.has_threads ≡ true
    → r.device_handle ≡ some handle
    → r.stop_request ≡ false
    → r.send_thread.stop_request ≡ false
    → IsIdle r.send_thread
    → (c' : Connection a) × (r' : Reader) × (cut : SendThread) × (packets : List StitchPacket)
      × (receive_each c now 0 (map ethernet_text frames) fails ≡ ok (c', map to_usb frames))
      × (send_each r frames ≡ ok r')
      × (SendThread.run_passes (length frames) r'.send_thread ≡ ok cut)
      × Streams frames packets
      × ((handle_asynchronous_send outcome (record r' { send_thread = cut })).1
          ≡ map write_of packets)
xlink_kai_frames_reach_psp c now fails frames r outcome up incoming short room threads opened going
      runs i =
    let (c', received, _) = receive_each-frames now fails frames 0 c up incoming in
    let (r', sent, x) =
      send_each-Taken frames r threads (omega (arith, ap length i.no_frames, room)) short in
    let queue : r'.send_thread.queue ≡ x.packets =
      ap (λ q. q.send_thread.queue) x.after ∙ ap (λ q. q ++ x.packets) i.no_frames in
    let (cut, ps, passes, _, out, streams) =
      run_passes-Streams x.packets r'.send_thread queue
        (ap (λ q. q.send_thread.stop_request) x.after ∙ runs) x.good in
    let count : length x.packets ≡ length frames =
      omega (arith, length-map x.packets, ap length x.same) in
    let outgoing : cut.outgoing_queue ≡ ps =
      out ∙ ap (λ q. q.send_thread.outgoing_queue ++ ps) x.after ∙ ap (λ q. q ++ ps) i.no_packets in
    (
      c',
      r',
      cut,
      ps,
      received,
      sent,
      ap (λ k. SendThread.run_passes k r'.send_thread) (sym count) ∙ passes,
      rw (← x.same) streams,
      (handle_asynchronous_send-writes outcome (record r' { send_thread = cut })
            (ap (λ q. q.device_handle) x.after ∙ opened)
            (ap (λ q. q.stop_request) x.after ∙ going)).0
          ∙ ap (map write_of) outgoing,
    )
