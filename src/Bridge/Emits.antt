-- ===== src/Bridge/Emits.antt =====
-- The send thread at work, between the writes of `USBReader` and the frames of the connection.
use cwusb.Base.{
  ◌≡◌, refl, sym, ap, ◌∙◌, inl, inr, Bool, true, false, List, [], ◌∷◌, ◌++◌, append-nil,
  append_assoc, map, map-append, Bytes, ok, arith,
}
use cwusb.Usb.{StitchPacket, WifiPacket}
use cwusb.SendThread
use cwusb.SendThread.{SendThread}
use cwusb.SendThread.Packets.{IsFrame}
use cwusb.SendThread.Cutting.{Carries, last, more}
use cwusb.SendThread.Frames.{All, OfFrame, run_once-OfFrame}
use cwusb.SendThread.Interleaving
use cwusb.SendThread.Interleaving.{Cuts, accept-Cuts, pass-Cuts, idle_pass, refused, queue-cases}
use cwusb.Reader.State.{Reader}
use cwusb.Reader.Transfers.{Write}
use cwusb.Reader.Sending.{half_sent}
use cwusb.Reader.Writing.{write_of}
use cwusb.Reader.Unplugged.{with_queues}
use cwusb.XLinkKai.Connection.{Addresses, Output}
use cwusb.Bridge.Passes.{Wrote}
use cwusb.Bridge.System.{Handed, all_handed, own, accepted, refused as refused_frame}

-- The send thread with its queues: the frames `frames` that it took are those whose packets were
-- popped and written, and those that wait, whole or cut.
pub record Emits (frames : List Bytes) (writes : List Write) (s : SendThread) : Type 0 where
  pub popped : List StitchPacket
  pub written : writes ≡ map write_of popped
  pub cuts : Cuts frames popped s
  pub whole : half_sent false s.outgoing_queue ≡ false

half_sent-append :
    (flag : Bool) (ps qs : List StitchPacket)
    → half_sent flag (ps ++ qs) ≡ half_sent (half_sent flag ps) qs
half_sent-append flag [] qs = refl
half_sent-append flag (p ∷ ps) qs = half_sent-append p.stitch ps qs

-- The packets of a frame end it.
half_sent-Carries :
    {h frame : Bytes} {ps : List StitchPacket} (flag : Bool)
    → Carries h frame ps
    → half_sent flag ps ≡ false
half_sent-Carries flag (last sent pos long small ends) = ends
half_sent-Carries flag (more {p} chunk cut sent long full goes rest) =
    half_sent-Carries p.stitch rest

half_sent-OfFrame :
    (front : WifiPacket) {ps : List StitchPacket} → OfFrame front ps → half_sent false ps ≡ false
half_sent-OfFrame front (inl (empty, nothing)) = ap (half_sent false) nothing
half_sent-OfFrame front (inr carried) = half_sent-Carries false carried

run_once-whole :
    (s s' : SendThread)
    → All IsFrame s.queue
    → half_sent false s.outgoing_queue ≡ false
    → SendThread.run_once s ≡ ok s'
    → half_sent false s'.outgoing_queue ≡ false
run_once-whole s s' fs whole e = elim (queue-cases s.queue) [
  | inl empty ↦ ap (λ x. half_sent false x.outgoing_queue) (idle_pass s s' empty e) ∙ whole
  | inr (front, rest, q) ↦
      let (f, _) : All IsFrame (front ∷ rest) = rw q at fs in
      let (ps, once, of) = run_once-OfFrame s front rest q f in
      let out : s'.outgoing_queue ≡ s.outgoing_queue ++ ps = ground (arith, e, once) in
      ap (half_sent false) out
      ∙ half_sent-append false s.outgoing_queue ps
      ∙ ap (λ b. half_sent b ps) whole
      ∙ half_sent-OfFrame front of
]

-- A pass of the send thread.
pub run_once-Emits :
    {frames : List Bytes} {writes : List Write} (s s' : SendThread)
    → SendThread.run_once s ≡ ok s'
    → Emits frames writes s
    → Emits frames writes s'
run_once-Emits s s' e i = record {
  popped = i.popped;
  written = i.written;
  cuts = pass-Cuts s s' e i.cuts;
  whole = run_once-whole s s' i.cuts.waiting i.whole e;
}

-- The writes of the reader.
pub Wrote-Emits :
    {r r' : Reader} {frames : List Bytes} {writes wrote : List Write}
    → Wrote r r' wrote
    → Emits frames writes r.send_thread
    → Emits frames (writes ++ wrote) r'.send_thread
Wrote-Emits {r} {r'} {writes = writes} x i = rw x.after (record {
  popped = i.popped ++ x.popped;
  written =
      ap (λ m. writes ++ m) x.written
      ∙ ap (λ m. m ++ map write_of x.popped) i.written
      ∙ sym (map-append write_of i.popped x.popped);
  cuts = record {
    waiting = i.cuts.waiting;
    done = i.cuts.done;
    order = i.cuts.order;
    streams = rw (append_assoc i.popped x.popped x.kept, ← x.split) i.cuts.streams;
  };
  whole = x.whole;
})

add-Emits :
    {frames : List Bytes} {writes : List Write} (s s' : SendThread) (frame : Bytes)
    → SendThread.add_to_queue s frame ≡ ok (s', true)
    → Emits frames writes s
    → Emits (frames ++ (frame ∷ [])) writes s'
add-Emits s s' frame e i = record {
  popped = i.popped;
  written = i.written;
  cuts = accept-Cuts s s' frame e i.cuts;
  whole =
      ap (λ x. half_sent false x.outgoing_queue) (Interleaving.accepted s s' frame e).1 ∙ i.whole;
}

-- The frames of a pass of the connection's thread; nothing else of the reader changes.
pub Handed-Emits :
    {a : Addresses} {r r' : Reader} {outs : List (Output a)} {frames others : List Bytes}
    {writes : List Write}
    → Handed r outs others r'
    → Emits frames writes r.send_thread
    → Emits (frames ++ others) writes r'.send_thread
      × (r' ≡ with_queues r (r'.send_thread, r.receive_thread))
Handed-Emits {frames = frames} all_handed i = (rw (append-nil frames) i, refl)
Handed-Emits (own handed) i = Handed-Emits handed i
Handed-Emits {r} {frames = frames} (accepted {s} {frames = others} {frame} e handed) i =
    let (j, same) = Handed-Emits handed (add-Emits r.send_thread s frame e i) in
    (rw (append_assoc frames (frame ∷ []) others) at j, same)
Handed-Emits {r} {writes = writes} (refused_frame {s} {frame = frame} e handed) i =
    Handed-Emits handed (rw (refused r.send_thread s frame e) i)
