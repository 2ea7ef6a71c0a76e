-- ===== src/Bridge/Passes.antt =====
-- A pass of `USBReader`'s thread between two packets of the PSP's frames.
use cwusb.Base.{
  ℕ, ◌≡◌, refl, sym, ap, ◌∙◌, ◌⊎◌, inl, inr, true, false, List, [], ◌∷◌, ◌++◌, append-nil, map,
  Bytes, ok, Bool-cases, arith,
}
use cwusb.Usb.{StitchPacket}
use cwusb.Reader.State.{Reader}
use cwusb.Reader.Transfers.{Write, usb_bulk_read, handle_asynchronous_send}
use cwusb.Reader.Loop.{ErrorCodes, Events, pass, read_packet, read_failed, write_phase}
use cwusb.Reader.Delivery.{read_of}
use cwusb.Reader.Reading.{IsReading, read_packet-IsReading}
use cwusb.Reader.Running.{pass-IsReading, IsQuiet}
use cwusb.Reader.Sending.{IsTaken, half_sent, with_send, send_packets-taken}
use cwusb.Reader.Duplex.{write_phase-sends, write_phase-stitching}
use cwusb.Reader.Writing.{write_of}
use cwusb.Reader.Unplugged.{Queues, with_queues}
use cwusb.Bridge.Awaiting.{Awaits, between, within, Advanced, read_packet-Advanced}

-- The other threads touch nothing that a frame of the PSP's waits in.
pub Awaits-with_queues :
    (r : Reader) (q : Queues) {pending : Bytes} {frames ws : List Bytes}
    → Awaits r pending frames ws
    → Awaits (with_queues r q) pending frames ws
Awaits-with_queues r q (between off streams) = between off streams
Awaits-with_queues r q (within on stream total bound fits streams split) =
    within on stream total bound fits streams split

pub with_queues-IsReading : (r : Reader) (q : Queues) → IsReading r → IsReading (with_queues r q)
with_queues-IsReading r q v = record {
  opened = record { handle = v.opened.handle; is_open = v.opened.is_open; array = v.opened.array };
  going = v.going;
  checked = v.checked;
  no_error = v.no_error;
  not_sending = v.not_sending;
  retries = v.retries;
  may_retry = v.may_retry;
}

abbrev pub keep : Reader → List StitchPacket → Reader
keep r ps = with_queues r (record r.send_thread { outgoing_queue = ps }, r.receive_thread)

-- The packets that a pass has popped and written, and those that it has left.
pub record Wrote (r : Reader) (r' : Reader) (writes : List Write) : Type 0 where
  pub popped : List StitchPacket
  pub kept : List StitchPacket
  pub split : r.send_thread.outgoing_queue ≡ popped ++ kept
  pub written : writes ≡ map write_of popped
  pub whole : half_sent false kept ≡ false
  pub after : r' ≡ keep r kept
  pub empties : (r.receive_stitching ≡ true) ⊎ (kept ≡ [])

module _ (r : Reader) (e : Events) (v : IsReading r)
    (whole : half_sent false r.send_thread.outgoing_queue ≡ false)
    (taken : (j : ℕ) → IsTaken (e.writes j)) where
  write_phase-all :
      r.receive_stitching ≡ false
      → write_phase r e ≡ (keep r [], map write_of r.send_thread.outgoing_queue)
  unfolding handle_asynchronous_send
  write_phase-all off =
      write_phase-sends r e off
      ∙ send_packets-taken r.send_thread.outgoing_queue e.writes 0 r v.opened.is_open v.going refl
          taken
      ∙ ap {B = Reader × List Write}
          (λ b. (
            with_send r (record r.send_thread { outgoing_queue = [] })
                (half_sent b r.send_thread.outgoing_queue),
            map write_of r.send_thread.outgoing_queue,
          ))
          v.not_sending
      ∙ ap {B = Reader × List Write}
          (λ b. (
            with_send r (record r.send_thread { outgoing_queue = [] }) b,
            map write_of r.send_thread.outgoing_queue,
          ))
          (whole ∙ sym v.not_sending)

  -- Between two frames of the PSP's all that waits is written, and within one nothing.
  pub write_phase-Wrote :
      (r' : Reader) × (writes : List Write) × (write_phase r e ≡ (r', writes)) × Wrote r r' writes
  write_phase-Wrote = elim (Bool-cases r.receive_stitching) [
    | inl on ↦ (
      r,
      [],
      write_phase-stitching r e on,
      record {
        popped = [];
        kept = r.send_thread.outgoing_queue;
        split = refl;
        written = refl;
        whole = whole;
        after = refl;
        empties = inl on;
      },
    )
    | inr off ↦ (
      keep r [],
      map write_of r.send_thread.outgoing_queue,
      write_phase-all off,
      record {
        popped = r.send_thread.outgoing_queue;
        kept = [];
        split = sym (append-nil r.send_thread.outgoing_queue);
        written = refl;
        whole = refl;
        after = refl;
        empties = inr refl;
      },
    )
  ]

module _ (codes : ErrorCodes) (r : Reader) (e : Events) (v : IsReading r)
    (whole : half_sent false r.send_thread.outgoing_queue ≡ false)
    (taken : (j : ℕ) → IsTaken (e.writes j)) where
  -- A pass that reads the next packet.
  pub pass-Advanced :
      {pending : Bytes} {frames : List Bytes} {w : Bytes} {later : List Bytes}
      → Awaits r pending frames (w ∷ later)
      → e.read ≡ read_of w
      → (r₁ r' : Reader) × (writes : List Write) × (pass codes r e ≡ ok (r', writes))
        × Advanced r pending frames w later r₁
        × IsReading r₁
        × (r₁.send_thread ≡ r.send_thread)
        × Wrote r₁ r' writes
  pass-Advanced awaits reads =
      let (r₁, read, x) = read_packet-Advanced codes e.hello_write r v.opened awaits refl in
      let (_, v₁, same) = read_packet-IsReading codes r _ v x.async e.hello_write read in
      let (r', writes, wrote, y) =
        write_phase-Wrote r₁ e v₁ (ap (λ s. half_sent false s.outgoing_queue) same ∙ whole) taken in
      (r₁, r', writes, pass-IsReading codes r r₁ r' e v (rw reads read) wrote, x, v₁, same, y)

  read_packet-quiet : IsQuiet codes e.read → read_packet codes r e.read e.hello_write ≡ ok (r, [])
  unfolding read_packet usb_bulk_read read_failed
  read_packet-quiet q =
      ground
        (arith, v.opened.is_open, q.waits, q.nothing, codes.timeout_negative, codes.busy_negative)

  -- A pass that reads nothing.
  pub pass-quiet :
      IsQuiet codes e.read
      → (r' : Reader) × (writes : List Write) × (pass codes r e ≡ ok (r', writes))
        × Wrote r r' writes
  pass-quiet q =
      let (r', writes, wrote, y) = write_phase-Wrote r e v whole taken in
      (r', writes, pass-IsReading codes r r r' e v (read_packet-quiet q) wrote, y)
