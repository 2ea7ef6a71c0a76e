-- ===== src/SendThread/Frames.antt =====
-- `USBSendThread` from `AddToQueue` to the outgoing queue.
use native.Mathlib.Numerals.{add-one}
use cwusb.Base.{
  ℕ, suc, ◌+◌, ◌/◌, ◌%◌, ◌^◌, ◌≤◌, ◌<◌, ◌≡◌, refl, sym, ap, ◌∙◌, true, false, List, [], ◌∷◌, ◌++◌,
  append-nil, append_assoc, Bytes, length, take, length-replicate, take_all, ok, err, out_of_bounds,
  copied, memcpy_in_bounds, memcpy_past_end, length-copied, take-copied, to_size, ltb, lt→ltb,
  Bool-cases, ◌⊎◌, inl, inr, map, arith,
}
use cwusb.Usb.{WifiPacket, StitchPacket, empty_wifi_packet, max_asynchronous_buffer}
use cwusb.SendThread.{SendThread, make_packets, run_once, run_passes, add_to_queue}
use cwusb.SendThread.Packets.{IsFrame, first_header, length_first_header}
use cwusb.SendThread.Count.{length-Carries}
use cwusb.SendThread.Cutting.{Carries, frame_of, make_packets-Carries, length-frame, loop_stops}

-- The thread's queue takes another frame.
abbrev pub HasRoom : SendThread → Type 0
HasRoom s = length s.queue < to_size s.max_buffer_size

-- `AddToQueue` puts a frame that fits its array at the end of the queue, as it is.
pub add_to_queue-accepts :
    (s : SendThread) (frame : Bytes)
    → HasRoom s
    → length frame ≤ max_asynchronous_buffer
    → (p : WifiPacket) × (add_to_queue s frame
        ≡ ok (record s { queue = s.queue ++ (p ∷ []) }, true))
      × IsFrame p
      × (frame_of p ≡ frame)
unfolding add_to_queue
add_to_queue-accepts s frame room fits = (
  record { bytes = copied zeros 0 frame 0 (length frame); length = length frame % 2 ^ 16 },
  rw (
    lt→ltb (length s.queue) (to_size s.max_buffer_size) room,
    memcpy_in_bounds zeros 0 frame 0 (length frame) in_array (omega arith),
  ),
  record {
    array = length-copied zeros 0 frame 0 (length frame) in_array (omega arith) ∙ len;
    fits = omega arith;
  },
  framed,
)
  where
    zeros : Bytes
    zeros = empty_wifi_packet.bytes

    len : length zeros ≡ 2304
    len = length-replicate {A = ℕ} 2304 0

    in_array : 0 + length frame ≤ length zeros
    in_array = omega (arith, len)

    filled : take (0 + length frame) (copied zeros 0 frame 0 (length frame)) ≡ frame
    filled =
        take-copied zeros 0 frame 0 (length frame) in_array (omega arith)
        ∙ take_all frame (length frame) (omega arith)

    framed : take (length frame % 2 ^ 16) (copied zeros 0 frame 0 (length frame)) ≡ frame
    framed =
        ap (λ n. take n (copied zeros 0 frame 0 (length frame))) {x = length frame % 2 ^ 16}
          {y = 0 + length frame} (omega arith)
        ∙ filled

-- A frame larger than the array of a `BinaryWiFiPacket` is copied past its end.
pub add_to_queue-overflows :
    (s : SendThread) (frame : Bytes)
    → HasRoom s
    → max_asynchronous_buffer < length frame
    → add_to_queue s frame ≡ err out_of_bounds
unfolding add_to_queue
add_to_queue-overflows s frame room big = rw (
  lt→ltb (length s.queue) (to_size s.max_buffer_size) room,
  memcpy_past_end empty_wifi_packet.bytes 0 frame 0 (length frame)
      (omega (arith, length-replicate {A = ℕ} 2304 0)),
)

abbrev pub All {ℓ κ} : {A : Type ℓ} → (A → Type κ) → List A → Type κ
All P [] = Unit
All P (x ∷ xs) = P x × All P xs

-- The packets are those of the frames, one frame after the other; an empty frame has none.
pub data Streams : List Bytes → List StitchPacket → Type 0 where
  none_left : Streams [] []
  skip :
      {frame : Bytes} {frames : List Bytes} {ps : List StitchPacket}
      → frame ≡ []
      → Streams frames ps
      → Streams (frame ∷ frames) ps
  send :
      {frame : Bytes} {frames : List Bytes} {ps qs rs : List StitchPacket}
      → Carries (first_header (length frame)) frame ps
      → Streams frames qs
      → rs ≡ ps ++ qs
      → Streams (frame ∷ frames) rs

-- The packets that one frame turns into.
abbrev pub OfFrame : WifiPacket → List StitchPacket → Type 0
OfFrame front ps =
    ((frame_of front ≡ []) × (ps ≡ []))
    ⊎ Carries (first_header (length (frame_of front))) (frame_of front) ps

make_packets-OfFrame :
    (front : WifiPacket) (outgoing : List StitchPacket)
    → IsFrame front
    → (ps : List StitchPacket) × (make_packets (front.length + 1) front 0 outgoing
        ≡ ok (outgoing ++ ps))
      × OfFrame front ps
make_packets-OfFrame front outgoing f = elim (Bool-cases (ltb 0 front.length)) [
  | inl some_bytes ↦
      let (ps, made, carried) =
        make_packets-Carries front f (front.length + 1) 0 outgoing (ground arith) (omega arith) in
      (ps, made, inr (rw (length-frame front f) carried))
  | inr nothing ↦
      let empty : front.length ≡ 0 = ground arith in
      (
        [],
        rw (add-one, append-nil) (loop_stops front f front.length 0 outgoing (omega arith)),
        inl (ap (λ n. take n front.bytes) empty, refl),
      )
]

pub run_once-OfFrame :
    (s : SendThread) (front : WifiPacket) (rest : List WifiPacket)
    → s.queue ≡ front ∷ rest
    → IsFrame front
    → (ps : List StitchPacket) × (run_once s
        ≡ ok (record s {
          queue = rest;
          last_received_packet = front;
          outgoing_queue = s.outgoing_queue ++ ps;
        }))
      × OfFrame front ps
unfolding run_once
run_once-OfFrame s front rest e f =
    let (ps, made, of) = make_packets-OfFrame front s.outgoing_queue f in
    (ps, rw (e, run_once, made), of)

pub Streams-cons :
    (front : WifiPacket) {frames : List Bytes} {ps qs : List StitchPacket}
    → OfFrame front ps
    → Streams frames qs
    → Streams (frame_of front ∷ frames) (ps ++ qs)
Streams-cons front (inl (empty, nothing)) rest = rw nothing (skip empty rest)
Streams-cons front (inr carried) rest = send carried rest refl

run_passes-suc :
    (n : ℕ) (s : SendThread) {s' : SendThread}
    → s.stop_request ≡ false
    → run_once s ≡ ok s'
    → run_passes (suc n) s ≡ run_passes n s'
unfolding run_passes
run_passes-suc n s go once = ground arith

-- As many passes as there are frames empty the queue, and what they append to the outgoing queue
-- is every frame in the order of arrival, cut into packets, if no stop is requested and every
-- frame fits its array of 2304 bytes.
pub run_passes-Streams :
    (queue : List WifiPacket) (s : SendThread)
    → s.queue ≡ queue
    → s.stop_request ≡ false
    → All IsFrame queue
    → (s' : SendThread) × (ps : List StitchPacket) × (run_passes (length queue) s ≡ ok s')
      × (s'.queue ≡ [])
      × (s'.outgoing_queue ≡ s.outgoing_queue ++ ps)
      × Streams (map frame_of queue) ps
unfolding run_passes
run_passes-Streams [] s e go fs = (s, [], refl, e, sym (append-nil s.outgoing_queue), none_left)
run_passes-Streams (front ∷ rest) s e go fs =
    let (ps, once, of) = run_once-OfFrame s front rest e fs.0 in
    let s₁ : SendThread = record s {
      queue = rest;
      last_received_packet = front;
      outgoing_queue = s.outgoing_queue ++ ps;
    } in
    let (s', qs, passes, done, out, streams) = run_passes-Streams rest s₁ refl go fs.1 in
    (
      s',
      ps ++ qs,
      run_passes-suc (length rest) s go once ∙ passes,
      done,
      out ∙ append_assoc s.outgoing_queue ps qs,
      Streams-cons front of streams,
    )

-- A frame of `n` bytes, `n` between 1 and 2304, in its array takes `1 + (n + 15) / 504` packets.
pub make_packets-count :
    (front : WifiPacket) (outgoing : List StitchPacket)
    → IsFrame front
    → 0 < front.length
    → (ps : List StitchPacket) × (make_packets (front.length + 1) front 0 outgoing
        ≡ ok (outgoing ++ ps))
      × (length ps ≡ 1 + (front.length + 15) / 504)
make_packets-count front outgoing f pos =
    let (ps, made, carried) =
      make_packets-Carries front f (front.length + 1) 0 outgoing pos (omega arith) in
    (
      ps,
      made,
      omega (
        arith,
        length-Carries carried (omega (arith, length_first_header front.length)),
        length_first_header front.length,
        length-frame front f,
      ),
    )
