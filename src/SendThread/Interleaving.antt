-- ===== src/SendThread/Interleaving.antt =====
-- `USBSendThread` with the connection's, its own and the reader's thread in any order of steps.
use cwusb.Base.{
  ◌≡◌, refl, sym, ap, ◌∙◌, ◌⊎◌, inl, inr, true, false, List, [], ◌∷◌, ◌++◌, map, append-nil,
  append_assoc, Bytes, length, ok, memcpy, Result-cases, ltb, leb, to_size, Bool-cases, arith,
}
use cwusb.Usb.{StitchPacket, WifiPacket, empty_wifi_packet, max_asynchronous_buffer}
use cwusb.SendThread.{
  SendThread, run_once, add_to_queue, has_outgoing_data, pop_from_outgoing_queue,
}
use cwusb.SendThread.Packets.{IsFrame}
use cwusb.SendThread.Cutting.{frame_of}
use cwusb.SendThread.Frames.{
  HasRoom, add_to_queue-accepts, add_to_queue-overflows, All, Streams, none_left, skip, send,
  OfFrame, run_once-OfFrame, Streams-cons,
}

-- The steps that lead from one state to another: the frames that were accepted on the way, and the
-- packets that the reader popped.
pub data Runs (start : SendThread) : List Bytes → List StitchPacket → SendThread → Type 0 where
  begin : Runs start [] [] start
  accept :
      {frames : List Bytes} {popped : List StitchPacket} {s s' : SendThread} (frame : Bytes)
      → Runs start frames popped s
      → add_to_queue s frame ≡ ok (s', true)
      → Runs start (frames ++ (frame ∷ [])) popped s'
  refuse :
      {frames : List Bytes} {popped : List StitchPacket} {s s' : SendThread} (frame : Bytes)
      → Runs start frames popped s
      → add_to_queue s frame ≡ ok (s', false)
      → Runs start frames popped s'
  pass :
      {frames : List Bytes} {popped : List StitchPacket} {s s' : SendThread}
      → Runs start frames popped s
      → run_once s ≡ ok s'
      → Runs start frames popped s'
  pop :
      {frames : List Bytes} {popped : List StitchPacket} {s s' : SendThread} {p : StitchPacket}
      → Runs start frames popped s
      → has_outgoing_data s ≡ true
      → pop_from_outgoing_queue s ≡ (s', p)
      → Runs start frames (popped ++ (p ∷ [])) s'

-- The frames up to some point are cut, and those behind it wait.
pub record Cuts (frames : List Bytes) (popped : List StitchPacket) (s : SendThread) : Type 0 where
  pub waiting : All IsFrame s.queue
  pub done : List Bytes
  pub order : frames ≡ done ++ map frame_of s.queue
  pub streams : Streams done (popped ++ s.outgoing_queue)

Streams-snoc :
    {frames : List Bytes} {ps qs : List StitchPacket} (front : WifiPacket)
    → Streams frames ps
    → OfFrame front qs
    → Streams (frames ++ (frame_of front ∷ [])) (ps ++ qs)
Streams-snoc {qs = qs} front none_left of = rw (append-nil qs) at (Streams-cons front of none_left)
Streams-snoc front (skip e rest) of = skip e (Streams-snoc front rest of)
Streams-snoc {qs = qs} front (send {ps = first} {qs = others} carried rest e) of =
    send carried (Streams-snoc front rest of) (ap (λ x. x ++ qs) e ∙ append_assoc first others qs)

All-snoc :
    (ps : List WifiPacket) (p : WifiPacket)
    → All IsFrame ps
    → IsFrame p
    → All IsFrame (ps ++ (p ∷ []))
All-snoc [] p us u = (u, tt)
All-snoc (q ∷ ps) p (v, us) u = (v, All-snoc ps p us u)

map-snoc :
    (ps : List WifiPacket) (p : WifiPacket)
    → map frame_of (ps ++ (p ∷ [])) ≡ map frame_of ps ++ (frame_of p ∷ [])
map-snoc [] p = refl
map-snoc (q ∷ ps) p = ap (◌∷◌ (frame_of q)) (map-snoc ps p)

has_room : (s s' : SendThread) (frame : Bytes) → add_to_queue s frame ≡ ok (s', true) → HasRoom s
unfolding add_to_queue
has_room s s' frame e = ground arith

pub refused : (s s' : SendThread) (frame : Bytes) → add_to_queue s frame ≡ ok (s', false) → s' ≡ s
unfolding add_to_queue
refused s s' frame e = elim (Bool-cases (ltb (length s.queue) (to_size s.max_buffer_size))) [
  | inr full ↦ ground (arith, e, full)
  | inl room ↦ elim (Result-cases (memcpy empty_wifi_packet.bytes 0 frame 0 (length frame))) [
    | inl (bytes, copies) ↦ absurd (ground (arith, e, room, copies))
    | inr (f, fails) ↦ absurd (ground (arith, e, room, fails))
  ]
]

-- A frame that was accepted, with no fault, fits its array.
pub accepted :
    (s s' : SendThread) (frame : Bytes)
    → add_to_queue s frame ≡ ok (s', true)
    → (p : WifiPacket) × (s' ≡ record s { queue = s.queue ++ (p ∷ []) })
      × IsFrame p
      × (frame_of p ≡ frame)
accepted s s' frame e = elim (Bool-cases (leb (length frame) max_asynchronous_buffer)) [
  | inl small ↦
      let (p, added, f, same) =
        add_to_queue-accepts s frame (has_room s s' frame e) (ground arith) in
      (p, ground (arith, e, added), f, same)
  | inr large ↦
      let over = add_to_queue-overflows s frame (has_room s s' frame e) (ground arith) in
      absurd (ground (arith, e, over))
]

pub queue-cases {ℓ} :
    {A : Type ℓ} (q : List A) → (q ≡ []) ⊎ ((p : A) × (rest : List A) × (q ≡ p ∷ rest))
queue-cases [] = inl refl
queue-cases (p ∷ rest) = inr (p, rest, refl)

pub accept-Cuts :
    {frames : List Bytes} {popped : List StitchPacket} (s s' : SendThread) (frame : Bytes)
    → add_to_queue s frame ≡ ok (s', true)
    → Cuts frames popped s
    → Cuts (frames ++ (frame ∷ [])) popped s'
accept-Cuts {frames} s s' frame e c =
    let (p, after, f, same) = accepted s s' frame e in
    rw after (record {
      waiting = All-snoc s.queue p c.waiting f;
      done = c.done;
      order =
          ap (λ fs. fs ++ (frame ∷ [])) c.order
          ∙ append_assoc c.done (map frame_of s.queue) (frame ∷ [])
          ∙ ap (λ b. c.done ++ (map frame_of s.queue ++ (b ∷ []))) (sym same)
          ∙ ap (λ fs. c.done ++ fs) (sym (map-snoc s.queue p));
      streams = c.streams;
    })

pub idle_pass : (s s' : SendThread) → s.queue ≡ [] → run_once s ≡ ok s' → s' ≡ s
unfolding run_once
idle_pass s s' empty e = ground arith

pub pass-Cuts :
    {frames : List Bytes} {popped : List StitchPacket} (s s' : SendThread)
    → run_once s ≡ ok s'
    → Cuts frames popped s
    → Cuts frames popped s'
pass-Cuts {frames} {popped} s s' e c = elim (queue-cases s.queue) [
  | inl empty ↦ rw (idle_pass s s' empty e) c
  | inr (front, rest, q) ↦
      let (f, fs) : All IsFrame (front ∷ rest) = rw q at (c.waiting) in
      let (ps, once, of) = run_once-OfFrame s front rest q f in
      let after : s' ≡ record s {
        queue = rest;
        last_received_packet = front;
        outgoing_queue = s.outgoing_queue ++ ps;
      } =
        ground (arith, e, once) in
      rw after (record {
        waiting = fs;
        done = c.done ++ (frame_of front ∷ []);
        order =
            c.order
            ∙ ap (λ x. c.done ++ map frame_of x) q
            ∙ sym (append_assoc c.done (frame_of front ∷ []) (map frame_of rest));
        streams = rw (append_assoc popped s.outgoing_queue ps) at (Streams-snoc front c.streams of);
      })
]

pop-Cuts :
    {frames : List Bytes} {popped : List StitchPacket} (s s' : SendThread) (p : StitchPacket)
    → has_outgoing_data s ≡ true
    → pop_from_outgoing_queue s ≡ (s', p)
    → Cuts frames popped s
    → Cuts frames (popped ++ (p ∷ [])) s'
unfolding has_outgoing_data pop_from_outgoing_queue
pop-Cuts {frames} {popped} s s' p some_left e c = elim (queue-cases s.outgoing_queue) [
  | inl empty ↦ absurd (ground (arith, some_left, empty))
  | inr (q, rest, out) ↦
      let (after, same) : (s' ≡ record s { outgoing_queue = rest }) × (q ≡ p) =
        ground (arith, e, out) in
      rw after (record {
        waiting = c.waiting;
        done = c.done;
        order = c.order;
        streams = rw (out, same, sym (append_assoc popped (p ∷ []) rest)) at (c.streams);
      })
]

Runs-Cuts :
    {start s : SendThread} {frames : List Bytes} {popped : List StitchPacket}
    → Cuts [] [] start
    → Runs start frames popped s
    → Cuts frames popped s
Runs-Cuts c begin = c
Runs-Cuts c (accept {s} {s'} frame runs e) = accept-Cuts s s' frame e (Runs-Cuts c runs)
Runs-Cuts c (refuse {s} {s'} frame runs e) = rw (refused s s' frame e) (Runs-Cuts c runs)
Runs-Cuts c (pass {s} {s'} runs e) = pass-Cuts s s' e (Runs-Cuts c runs)
Runs-Cuts c (pop {s} {s'} {p} runs some_left e) = pop-Cuts s s' p some_left e (Runs-Cuts c runs)

-- In whatever order the connection adds frames, the send thread makes its passes and the reader pops
-- packets, from two empty queues on and with no fault on the way, the packets that were popped,
-- followed by those that still wait, are the accepted frames up to some point, cut in the order of
-- arrival, and the frames behind that point are those in the queue.
pub Runs-Streams :
    (start s : SendThread) (frames : List Bytes) (popped : List StitchPacket)
    → start.queue ≡ []
    → start.outgoing_queue ≡ []
    → Runs start frames popped s
    → (done : List Bytes) × (frames ≡ done ++ map frame_of s.queue)
      × Streams done (popped ++ s.outgoing_queue)
Runs-Streams start s frames popped empty nothing runs =
    let first : Cuts [] [] start = record {
      waiting = rw empty tt;
      done = [];
      order = rw empty refl;
      streams = rw nothing none_left;
    } in
    let c = Runs-Cuts first runs in (c.done, c.order, c.streams)
