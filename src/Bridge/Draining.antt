-- ===== src/Bridge/Draining.antt =====
-- The receive thread and the reader, up to where no packet of the PSP's is left.
use cwusb.Base.{
  ℕ, ◌<◌, ◌≡◌, refl, ap, ◌∙◌, inl, inr, true, false, List, [], ◌∷◌, ◌++◌, append-nil, append_assoc,
  Bytes, length, Option, ok, Result-cases, to_size, arith,
}
use cwusb.Usb.{StitchPacket}
use cwusb.ReceiveThread
use cwusb.ReceiveThread.{ReceiveThread, stitch_onto}
use cwusb.ReceiveThread.Message.{contents, length-contents}
use cwusb.ReceiveThread.Reassembly.{Fits, run_once_room}
use cwusb.SendThread.Interleaving.{queue-cases}
use cwusb.Reader.Transfers.{Write}
use cwusb.Reader.Loop
use cwusb.Reader.Loop.{ErrorCodes}
use cwusb.Reader.Delivery.{read_of}
use cwusb.Reader.Running.{goes_on-IsReading}
use cwusb.Reader.Reads.{queued-keeps}
use cwusb.Reader.Sending.{IsTaken}
use cwusb.XLinkKai.Connection.{Addresses, Output}
use cwusb.Bridge.Frames.{PspStreams}
use cwusb.Bridge.Passes.{pass-Advanced}
use cwusb.Bridge.Receives.{given-up}
use cwusb.Bridge.System.{System, given, Runs, read, receive}
use cwusb.Bridge.Together.{IsReady}
use cwusb.Bridge.Interleaving.{works}

-- The connection is up, and the receive thread's queue takes a packet when it is empty.
pub record IsUp {a : Addresses} (s : System a) : Type 0 where
  pub connected : s.connection.connected ≡ true
  pub opened : s.connection.is_open ≡ true
  pub room : 0 < to_size s.reader.receive_thread.max_buffer_size

run_once_keeps :
    (t t' : ReceiveThread) {sent : Option Bytes}
    → ReceiveThread.run_once t ≡ ok (t', sent)
    → t'.max_buffer_size ≡ t.max_buffer_size
unfolding ReceiveThread.run_once
run_once_keeps t t' e = elim (queue-cases t.queue) [
  | inl empty ↦ ground (arith, e, empty)
  | inr (p, rest, front) ↦ elim (Result-cases (stitch_onto t.last_received_message p)) [
    | inl (message, made) ↦ ground (arith, e, front, made)
    | inr (f, fails) ↦ absurd (ground (arith, e, front, fails))
  ]
]

-- The receive thread's part.
module _ {a : Addresses} (codes : ErrorCodes) {start : System a} {taken frames : List Bytes}
    (i : IsReady start) where
  -- What the receive thread's next pass makes of a packet.
  receive_next :
      {s : System a} {ws : List Bytes} {writes : List Write} {out : List (Output a)}
      (later : List Bytes) (p : StitchPacket) (rest : List StitchPacket)
      → Runs codes start ws taken writes out s
      → PspStreams frames (ws ++ later)
      → IsUp s
      → s.reader.receive_thread.queue ≡ p ∷ rest
      → (s' : System a) × (out' : List (Output a)) × Runs codes start ws taken writes out' s'
        × IsUp s'
        × (s'.reader.receive_thread.queue ≡ rest)
  receive_next {s} {out = out} later p rest runs sends up front =
      let x = works codes later i runs sends in
      let t : ReceiveThread = s.reader.receive_thread in
      let held : Fits (contents t.last_received_message) (p ∷ rest) =
        rw front at (x.receives.fits) in
      let (t', sent, y) = run_once_room t p rest front x.receives.message held.0 (
        omega
          (arith, held.1, length-contents t.last_received_message p x.receives.message held.0)) in
      (
        record {
          reader = record s.reader { receive_thread = t' };
          connection = (given s.connection sent false).0;
        },
        out ++ (given s.connection sent false).1,
        receive runs up.connected up.opened refl y.pass,
        record {
          connected =
              ap (λ x. x.0.connected)
                (given-up s.connection up.connected up.opened {fails = false} refl sent)
              ∙ up.connected;
          opened =
              ap (λ x. x.0.is_open)
                (given-up s.connection up.connected up.opened {fails = false} refl sent)
              ∙ up.opened;
          room = rw (run_once_keeps t t' y.pass) up.room;
        },
        y.queue,
      )

  -- The receive thread empties its queue.
  receive_all :
      (later : List Bytes) (queue : List StitchPacket) {s : System a} {ws : List Bytes}
      {writes : List Write} {out : List (Output a)}
      → Runs codes start ws taken writes out s
      → PspStreams frames (ws ++ later)
      → IsUp s
      → s.reader.receive_thread.queue ≡ queue
      → (s' : System a) × (out' : List (Output a)) × Runs codes start ws taken writes out' s'
        × IsUp s'
        × (s'.reader.receive_thread.queue ≡ [])
  receive_all later [] {s} {out = out} runs sends up same = (s, out, runs, up, same)
  receive_all later (p ∷ rest) runs sends up same =
      let (s₁, out₁, runs₁, up₁, left) = receive_next later p rest runs sends up same in
      receive_all later rest runs₁ sends up₁ left

  module _ (feed : Bytes → Loop.Events) (feeds : (w : Bytes) → (feed w).read ≡ read_of w)
      (takes : (w : Bytes) (j : ℕ) → IsTaken ((feed w).writes j)) where
    -- The next packet, with room for it.
    read_next :
        {s : System a} {ws : List Bytes} {writes : List Write} {out : List (Output a)} (w : Bytes)
        (later : List Bytes)
        → Runs codes start ws taken writes out s
        → PspStreams frames (ws ++ (w ∷ later))
        → IsUp s
        → s.reader.receive_thread.queue ≡ []
        → (s' : System a) × (writes' : List Write) × Runs codes start
            (ws ++ (w ∷ []))
            taken
            writes'
            out
            s'
          × IsUp s'
    read_next {s} {writes = writes} w later runs sends up empty =
        let x = works codes (w ∷ later) i runs sends in
        let (r₁, r', wrote, passes, y, _, _, z) =
          pass-Advanced codes s.reader (feed w) x.reading x.emits.whole (takes w) x.awaits
            (feeds w) in
        (
          record s { reader = r' },
          writes ++ wrote,
          read (feed w) w runs (feeds w) (takes w) (omega (arith, ap length empty, up.room))
              (goes_on-IsReading s.reader x.reading) passes,
          record {
            connected = up.connected;
            opened = up.opened;
            room = rw (z.after, y.queue, (queued-keeps s.reader.receive_thread y.packet).2) up.room;
          },
        )

    -- All packets of the PSP's that are to come.
    pub read_rest :
        (later : List Bytes) {s : System a} {ws : List Bytes} {writes : List Write}
        {out : List (Output a)}
        → Runs codes start ws taken writes out s
        → PspStreams frames (ws ++ later)
        → IsUp s
        → (s' : System a) × (writes' : List Write) × (out' : List (Output a)) × Runs codes start
            (ws ++ later)
            taken
            writes'
            out'
            s'
          × (s'.reader.receive_thread.queue ≡ [])
    read_rest [] {s} {ws} {writes} runs sends up =
        let (s₁, out₁, runs₁, up₁, empty) = receive_all [] _ runs sends up refl in
        (s₁, writes, out₁, rw (append-nil ws) runs₁, empty)
    read_rest (w ∷ later) {ws = ws} runs sends up =
        let (s₁, out₁, runs₁, up₁, empty) = receive_all (w ∷ later) _ runs sends up refl in
        let (s₂, writes₂, runs₂, up₂) = read_next w later runs₁ sends up₁ empty in
        let same = append_assoc ws (w ∷ []) later in
        let (s', writes', out', runs', empty') = read_rest later runs₂ (rw same sends) up₂ in
        (s', writes', out', rw same at runs', empty')
