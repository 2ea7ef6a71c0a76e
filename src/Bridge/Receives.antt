-- ===== src/Bridge/Receives.antt =====
-- The receive thread at work, between the reads of `USBReader`.
use cwusb.Base.{
  ◌≡◌, refl, sym, ap, ap₂, ◌∙◌, inl, inr, Bool, true, false, List, [], ◌∷◌, ◌++◌, append-nil,
  append_assoc, map, map-append, Bytes, Option, some, none, ok,
}
use cwusb.Usb.{StitchPacket}
use cwusb.ReceiveThread
use cwusb.ReceiveThread.{ReceiveThread, with_sent}
use cwusb.ReceiveThread.Message.{IsMessage, contents}
use cwusb.ReceiveThread.Reassembly.{assemble, Fits, Passed, assemble-Passed}
use cwusb.ReceiveThread.Interleaving.{idle_pass, busy_pass, with_sent-append}
use cwusb.ReceiveThread.Pending.{
  left, left-append, assemble-append, Fits-append, left-Passed, Fits-Passed,
}
use cwusb.SendThread.Interleaving.{queue-cases}
use cwusb.Reader.State.{Reader}
use cwusb.Reader.Reads.{HasRoom, queued-keeps, queue-queued}
use cwusb.XLinkKai.Connection.{Addresses, Connection, Output}
use cwusb.Bridge.FromPsp.{ethernet_datagram, send_data-up}
use cwusb.Bridge.Awaiting.{Awaits, Advanced}
use cwusb.Bridge.System.{given, datagram_of, ethernet_bytes}

-- The receive thread with the packets of its queue: the frames `frames` of the PSP's are those that
-- were sent, those in the queue, and `others`.
pub record Receives {a : Addresses} (frames others : List Bytes) (out : List (Output a))
    (t : ReceiveThread) : Type 0 where
  pub message : IsMessage t.last_received_message
  pub fits : Fits (contents t.last_received_message) t.queue
  pub running : t.stop_request ≡ false
  pub sent : List Bytes
  pub output : map datagram_of out ≡ map ethernet_bytes sent
  pub total : frames ≡ (sent ++ assemble (contents t.last_received_message) t.queue) ++ others

abbrev pub pending : ReceiveThread → Bytes
pending t = left (contents t.last_received_message) t.queue

-- A packet more in the queue.
pub queued-Receives :
    {a : Addresses} {r r' : Reader} {frames others later : List Bytes} {w : Bytes}
    {out : List (Output a)}
    → HasRoom r.receive_thread 1
    → Receives frames others out r.receive_thread
    → (x : Advanced r (pending r.receive_thread) others w later r')
    → Receives frames x.others out r'.receive_thread
      × Awaits r' (pending r'.receive_thread) x.others later
queued-Receives {r} {r'} {frames} {others} room i x =
    let t : ReceiveThread = r.receive_thread in
    let held = contents t.last_received_message in
    let added = (queue-queued t x.packet 0 room).0 in
    let (kept, stop, _) = queued-keeps t x.packet in
    let queue : r'.receive_thread.queue ≡ t.queue ++ (x.packet ∷ []) =
      ap (λ q. q.queue) x.queue ∙ added in
    let same : r'.receive_thread.last_received_message ≡ t.last_received_message =
      ap (λ q. q.last_received_message) x.queue ∙ kept in
    let moved : left (pending t) (x.packet ∷ []) ≡ pending r'.receive_thread =
      sym (left-append held t.queue (x.packet ∷ []))
      ∙ ap₂ (λ m q. left (contents m) q) (sym same) (sym queue) in
    (
      record {
        message = rw same i.message;
        fits = rw (same, queue) (Fits-append held t.queue x.packet i.fits x.valid x.small);
        running = ap (λ q. q.stop_request) x.queue ∙ stop ∙ i.running;
        sent = i.sent;
        output = i.output;
        total =
            rw (same, queue, assemble-append held t.queue (x.packet ∷ []))
              (i.total
                ∙ ap (λ m. (i.sent ++ assemble held t.queue) ++ m) x.makes
                ∙ sym (
                    append_assoc (i.sent ++ assemble held t.queue)
                      (assemble (pending t) (x.packet ∷ [])) x.others)
                ∙ ap (λ m. m ++ x.others)
                    (append_assoc i.sent (assemble held t.queue)
                      (assemble (pending t) (x.packet ∷ []))));
      },
      rw moved at (x.awaits),
    )

module _ {a : Addresses} (c : Connection a) (up : c.connected ≡ true) (opened : c.is_open ≡ true)
    {fails : Bool} (works : fails ≡ false) where
  pub given-up :
      (sent : Option Bytes)
      → given c sent fails ≡ (c, map (ethernet_datagram c.remote) (with_sent sent []))
  given-up none = refl
  given-up (some frame) = rw (works, send_data-up c up opened frame)

  given-bytes :
      (sent : Option Bytes)
      → map datagram_of (given c sent fails).1 ≡ map ethernet_bytes (with_sent sent [])
  given-bytes none = refl
  given-bytes (some frame) = rw (works, send_data-up c up opened frame)

  Passed-Receives :
      {frames others : List Bytes} {out : List (Output a)} (t t' : ReceiveThread) (p : StitchPacket)
      (rest : List StitchPacket) {sent : Option Bytes}
      → t.queue ≡ p ∷ rest
      → Fits (contents t.last_received_message) (p ∷ rest)
      → Passed t p rest t' sent
      → Receives frames others out t
      → Receives frames others (out ++ (given c sent fails).1) t' × (pending t' ≡ pending t)
  Passed-Receives {others = others} {out} t t' p rest {sent} front fits x i =
      let held = contents t.last_received_message in
      let held' = contents t'.last_received_message in
      (
        record {
          message = x.message;
          fits = rw x.queue (Fits-Passed p rest x fits);
          running = x.stop ∙ i.running;
          sent = i.sent ++ with_sent sent [];
          output =
              map-append datagram_of out (given c sent fails).1
              ∙ ap₂ (λ xs ys. xs ++ ys) i.output (given-bytes sent)
              ∙ sym (map-append ethernet_bytes i.sent (with_sent sent []));
          total =
              i.total
              ∙ ap (λ q. (i.sent ++ assemble held q) ++ others) front
              ∙ ap (λ m. (i.sent ++ m) ++ others)
                  (sym (assemble-Passed p rest x)
                    ∙ sym (with_sent-append sent (assemble held' rest))
                    ∙ ap (λ q. with_sent sent [] ++ assemble held' q) (sym x.queue))
              ∙ ap (λ m. m ++ others)
                  (sym (append_assoc i.sent (with_sent sent []) (assemble held' t'.queue)));
        },
        ap (left held') x.queue ∙ left-Passed p rest x ∙ ap (left held) (sym front),
      )

  -- A pass of the receive thread: what it gives to the connection is a datagram.
  pub run_once-Receives :
      {frames others : List Bytes} {out : List (Output a)} (t t' : ReceiveThread)
      {sent : Option Bytes}
      → ReceiveThread.run_once t ≡ ok (t', sent)
      → Receives frames others out t
      → Receives frames others (out ++ (given c sent fails).1) t' × (pending t' ≡ pending t)
  run_once-Receives {out} t t' {sent} e i = elim (queue-cases t.queue) [
    | inl empty ↦
        let (same, nothing) = idle_pass t t' empty e in
        rw (← same, nothing, append-nil out) (i, refl)
    | inr (p, rest, front) ↦
        let fits : Fits (contents t.last_received_message) (p ∷ rest) = rw front at (i.fits) in
        Passed-Receives t t' p rest front fits (busy_pass t t' p rest front i.message fits.0 e) i
  ]
