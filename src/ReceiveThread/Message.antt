-- ===== src/ReceiveThread/Message.antt =====
-- One packet of `USBReceiveThread`: the message buffer as the bytes that it holds.
use cwusb.Base.{
  ℕ, ◌+◌, ◌≤◌, ◌<◌, ◌≡◌, refl, sym, ◌∙◌, inl, inr, ◌≢◌, leb→le, true, false, List, [], ◌∷◌, ◌++◌,
  none, some, Bytes, length, take, length-take, length-replicate, ok, err, out_of_bounds, copied,
  memcpy_in_bounds, memcpy_past_end, length-copied, take-copied, leb, if◌then◌else◌, Bool-cases,
  arith,
}
use cwusb.Usb.{StitchPacket, empty_stitch_wifi_packet, max_asynchronous_buffer, max_usb_packet_size}
use cwusb.ReceiveThread.{stitch_onto, send_off}

-- A packet in its array of 512 bytes.
pub record IsUsbPacket (p : StitchPacket) : Type 0 where
  pub array : length p.bytes ≡ max_usb_packet_size
  pub fits : p.length ≤ max_usb_packet_size

abbrev pub AllUsb : List StitchPacket → Type 0
AllUsb [] = Unit {0}
AllUsb (p ∷ ps) = IsUsbPacket p × AllUsb ps

-- At the end of a queue.
pub AllUsb-append :
    (ps : List StitchPacket) (p : StitchPacket)
    → AllUsb ps
    → IsUsbPacket p
    → AllUsb (ps ++ (p ∷ []))
AllUsb-append [] p us u = (u, tt)
AllUsb-append (q ∷ ps) p (v, us) u = (v, AllUsb-append ps p us u)

-- The message buffer between two passes: it holds bytes only while more are to come.
pub record IsMessage (m : StitchPacket) : Type 0 where
  pub array : length m.bytes ≡ max_asynchronous_buffer
  pub fits : m.length ≤ max_asynchronous_buffer
  pub waiting : m.stitch ≡ false → m.length ≡ 0

abbrev pub contents : StitchPacket → Bytes
contents p = take p.length p.bytes

pub empty-IsMessage : IsMessage empty_stitch_wifi_packet
empty-IsMessage = record {
  array = length-replicate {A = ℕ} 2304 0;
  fits = omega arith;
  waiting = λ _. refl;
}

ok_length : {a b : StitchPacket} → ok a ≡ ok b → a.length ≡ b.length
ok_length e = ground arith

ok-ne-err : {a : StitchPacket} → ok a ≢ err out_of_bounds
ok-ne-err e = cc

module _ (m p : StitchPacket) (v : IsMessage m) (u : IsUsbPacket p) where
  pub length-contents : length (contents m) ≡ m.length
  length-contents = omega (arith, length-take m.length m.bytes, v.array, v.fits)

  -- The copy goes behind what the buffer holds, whichever branch makes it.
  pub stitched : StitchPacket
  stitched = record {
    bytes = copied m.bytes m.length p.bytes 0 p.length;
    length = m.length + p.length;
    stitch = p.stitch;
  }

  -- A packet for which the buffer has room is appended.
  pub stitch_onto-ok : m.length + p.length ≤ max_asynchronous_buffer → stitch_onto m p ≡ ok stitched
  unfolding stitch_onto stitched
  stitch_onto-ok room = elim (Bool-cases m.stitch) [
    | inl more ↦ ground (
      arith,
      memcpy_in_bounds m.bytes m.length p.bytes 0 p.length (omega (arith, v.array))
          (omega (arith, u.array, u.fits)),
    )
    | inr fresh ↦ ground (
      arith,
      memcpy_in_bounds m.bytes 0 p.bytes 0 p.length (omega (arith, v.array, u.fits))
          (omega (arith, u.array, u.fits)),
      v.waiting fresh,
    )
  ]

  -- A packet for which the buffer has no room is copied past its end.
  pub stitch_onto-overflows :
      max_asynchronous_buffer < m.length + p.length → stitch_onto m p ≡ err out_of_bounds
  unfolding stitch_onto
  stitch_onto-overflows big = elim (Bool-cases m.stitch) [
    | inl more ↦
        ground (arith, memcpy_past_end m.bytes m.length p.bytes 0 p.length (omega (arith, v.array)))
    | inr fresh ↦ absurd (omega (arith, v.waiting fresh, u.fits))
  ]

  pub contents-stitched :
      m.length + p.length ≤ max_asynchronous_buffer → contents stitched ≡ contents m ++ contents p
  unfolding stitched
  contents-stitched room =
      take-copied m.bytes m.length p.bytes 0 p.length (omega (arith, v.array))
        (omega (arith, u.array, u.fits))

  pub stitched-IsMessage :
      m.length + p.length ≤ max_asynchronous_buffer → p.stitch ≡ true → IsMessage stitched
  unfolding stitched
  stitched-IsMessage room more = record {
    array =
        length-copied m.bytes m.length p.bytes 0 p.length (omega (arith, v.array))
          (omega (arith, u.array, u.fits))
        ∙ v.array;
    fits = omega arith;
    waiting = λ e. cc;
  }

  length-stitched : stitched.length ≡ m.length + p.length
  unfolding stitched
  length-stitched = refl

  -- A well-formed message to which a well-formed packet was copied within the bounds of its array
  -- is never longer than 2304 bytes, so the test for longer messages after the copy does not hold.
  pub stitch_onto-le :
      (m' : StitchPacket) → stitch_onto m p ≡ ok m' → m'.length ≤ max_asynchronous_buffer
  stitch_onto-le m' e = elim (Bool-cases (leb (m.length + p.length) max_asynchronous_buffer)) [
    | inl room ↦
        let same : ok stitched ≡ ok m' = sym (stitch_onto-ok (leb→le _ _ room)) ∙ e in
        omega (arith, ok_length same, length-stitched, leb→le _ _ room)
    | inr big ↦ absurd (ok-ne-err (sym e ∙ stitch_onto-overflows (ground arith)))
  ]

  -- What goes off, and what is kept.
  pub send_off-stitched :
      m.length + p.length ≤ max_asynchronous_buffer
      → send_off stitched p.stitch ≡ (
          if p.stitch
          then (stitched, none)
          else (empty_stitch_wifi_packet, some (contents m ++ contents p)))
  unfolding send_off
  send_off-stitched room = ground (arith, length-stitched, contents-stitched room)
