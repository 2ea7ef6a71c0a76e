-- ===== src/SendThread/Cutting.antt =====
-- The loop of `USBSendThread::StartThread` against a description of the stream that the PSP reads.
use cwusb.Base.{
  ℕ, zero, suc, ◌+◌, ◌-◌, ◌≤◌, ◌<◌, ◌≡◌, refl, sym, ap, ◌∙◌, inl, inr, true, false, List, [], ◌∷◌,
  ◌++◌, append-nil, append_assoc, Bytes, length, take, drop, length-take, length-drop, drop_all,
  take-append-drop, drop-drop, take-drop-take, ok, lt→ltb, ge→ltb, Bool-cases, arith,
}
use cwusb.Usb.{WifiPacket, StitchPacket, max_usb_packet_size}
use cwusb.SendThread.{must_stitch, payload_length, make_packet, make_packets}
use cwusb.SendThread.Packets.{
  wire, header, continuation_header, IsFrame, IsPacket, make_packet-IsPacket,
}

-- The packets carry the bytes `rest`, the first of them behind the headers `h`: a packet that is
-- not the last is full and marked for stitching, the last is not marked and holds what is left.
pub data Carries : Bytes → Bytes → List StitchPacket → Type 0 where
  last :
      {h rest : Bytes} {p : StitchPacket}
      → wire p ≡ h ++ rest
      → 0 < length rest
      → length (wire p) ≡ p.length
      → p.length ≤ max_usb_packet_size
      → p.stitch ≡ false
      → Carries h rest (p ∷ [])
  more :
      {h rest rest' : Bytes} {p : StitchPacket} {ps : List StitchPacket} (chunk : Bytes)
      → rest ≡ chunk ++ rest'
      → wire p ≡ h ++ chunk
      → length (wire p) ≡ p.length
      → p.length ≡ max_usb_packet_size
      → p.stitch ≡ true
      → Carries continuation_header rest' ps
      → Carries h rest (p ∷ ps)

-- The bytes of the frame.
abbrev pub frame_of : WifiPacket → Bytes
frame_of front = take front.length front.bytes

header_suc : (n index : ℕ) → 0 < index → header n index ≡ continuation_header
header_suc n zero h = elim h [ ]
header_suc n (suc index) h = ground arith

-- The loop from byte `index` on, with fuel above the number of bytes left.
module _ (front : WifiPacket) (f : IsFrame front) where
  pub length-frame : length (frame_of front) ≡ front.length
  length-frame = omega (arith, length-take front.length front.bytes, f.array, f.fits)

  chunk_of_frame :
      (index n : ℕ)
      → index + n ≤ front.length
      → take n (drop index front.bytes) ++ drop (index + n) (frame_of front)
        ≡ drop index (frame_of front)
  chunk_of_frame index n h =
      ap (λ t. t ++ drop (index + n) (frame_of front))
        (sym (take-drop-take n index front.length front.bytes h))
      ∙ ap (λ t. take n (drop index (frame_of front)) ++ t)
          (sym (drop-drop n index (frame_of front)))
      ∙ take-append-drop n (drop index (frame_of front))

  pub loop_stops :
      (fuel index : ℕ) (outgoing : List StitchPacket)
      → front.length ≤ index
      → make_packets (suc fuel) front index outgoing ≡ ok outgoing
  unfolding make_packets
  loop_stops fuel index outgoing h = rw (ge→ltb index front.length h, make_packets)

  loop_steps :
      (fuel index : ℕ) (outgoing : List StitchPacket) {p : StitchPacket}
      → index < front.length
      → make_packet front index ≡ ok p
      → make_packets (suc fuel) front index outgoing
        ≡ make_packets fuel front (index + payload_length front index) (outgoing ++ (p ∷ []))
  unfolding make_packets
  loop_steps fuel index outgoing lt e = rw (lt→ltb index front.length lt, make_packets, e)

  last_chunk :
      (index n : ℕ)
      → index + n ≡ front.length
      → take n (drop index front.bytes) ≡ drop index (frame_of front)
  last_chunk index n e =
      sym (append-nil (take n (drop index front.bytes)))
      ∙ ap (λ t. take n (drop index front.bytes) ++ t)
          (sym (drop_all (frame_of front) (index + n) (omega (arith, length-frame))))
      ∙ chunk_of_frame index n (omega arith)

  length-wire : {index : ℕ} {p : StitchPacket} → IsPacket front index p → length (wire p) ≡ p.length
  length-wire {index} {p} good = ground (arith, length-take p.length p.bytes)

  -- One packet, and the rest of the stream behind it.
  step-Carries :
      (index : ℕ) (p : StitchPacket) (ps : List StitchPacket)
      → index < front.length
      → IsPacket front index p
      → (must_stitch front index ≡ true
          → Carries continuation_header
              (drop (index + payload_length front index) (frame_of front))
              ps)
      → (must_stitch front index ≡ false → ps ≡ [])
      → Carries (header front.length index) (drop index (frame_of front)) (p ∷ ps)
  step-Carries index p ps lt good stitched single = elim (Bool-cases (must_stitch front index)) [
    | inl s ↦
        more _ (sym (chunk_of_frame index (payload_length front index) (ground arith))) good.sent
          (length-wire good) (ground arith) (good.flag ∙ s) (stitched s)
    | inr s ↦ rw (single s) (
        last
          (good.sent
            ∙ ap (λ t. header front.length index ++ t)
                (last_chunk index (payload_length front index) (ground arith)))
          (omega (arith, length-drop index (frame_of front), length-frame)) (length-wire good)
          (ground arith) (good.flag ∙ s))
  ]

  pub make_packets-Carries :
      (fuel index : ℕ) (outgoing : List StitchPacket)
      → index < front.length
      → front.length - index < fuel
      → (ps : List StitchPacket) × (make_packets fuel front index outgoing ≡ ok (outgoing ++ ps))
        × Carries (header front.length index) (drop index (frame_of front)) ps
  make_packets-Carries zero index outgoing lt enough = absurd (omega arith)
  make_packets-Carries (suc zero) index outgoing lt enough = absurd (omega arith)
  make_packets-Carries (suc (suc fuel)) index outgoing lt enough =
      let (p, e, good) = make_packet-IsPacket front index f lt in
      let next : ℕ = index + payload_length front index in
      elim (Bool-cases (must_stitch front index)) [
        | inl s ↦
            let (ps, loop, carried) =
              make_packets-Carries (suc fuel) next (outgoing ++ (p ∷ [])) (ground arith)
                (ground arith) in
            (
              p ∷ ps,
              loop_steps (suc fuel) index outgoing lt e
                  ∙ loop
                  ∙ ap ok (append_assoc outgoing (p ∷ []) ps),
              step-Carries index p ps lt good
                  (λ _. rw (header_suc front.length next (ground arith)) at carried) (λ s'. cc),
            )
        | inr s ↦ (
          p ∷ [],
          loop_steps (suc fuel) index outgoing lt e
              ∙ loop_stops fuel next (outgoing ++ (p ∷ [])) (ground arith),
          step-Carries index p [] lt good (λ s'. cc) (λ _. refl),
        )
      ]
