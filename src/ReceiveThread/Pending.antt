-- ===== src/ReceiveThread/Pending.antt =====
-- What a sequence of packets leaves of a message that is not whole yet, for `USBReceiveThread`.
use cwusb.Base.{
  ◌+◌, ◌≤◌, ◌≡◌, refl, sym, ap, ◌∙◌, inl, inr, true, false, List, [], ◌∷◌, ◌++◌, Option, Bytes,
  length, Bool-cases, arith,
}
use cwusb.Usb.{StitchPacket, max_asynchronous_buffer}
use cwusb.ReceiveThread.{ReceiveThread}
use cwusb.ReceiveThread.Message.{IsUsbPacket, contents}
use cwusb.ReceiveThread.Reassembly.{assemble, assemble_more, assemble_end, Fits, Passed}

-- The bytes that wait for the rest of their message, behind the bytes `pending`.
abbrev pub left : Bytes → List StitchPacket → Bytes
left pending [] = pending
left pending (p ∷ ps) = elim p.stitch [
  | true ↦ left (pending ++ contents p) ps
  | false ↦ left [] ps
]

left_more :
    (pending : Bytes) (p : StitchPacket) (ps : List StitchPacket)
    → p.stitch ≡ true
    → left pending (p ∷ ps) ≡ left (pending ++ contents p) ps
left_more pending p ps e = ground arith

left_end :
    (pending : Bytes) (p : StitchPacket) (ps : List StitchPacket)
    → p.stitch ≡ false
    → left pending (p ∷ ps) ≡ left [] ps
left_end pending p ps e = ground arith

pub left-append :
    (pending : Bytes) (ps qs : List StitchPacket)
    → left pending (ps ++ qs) ≡ left (left pending ps) qs
left-append pending [] qs = refl
left-append pending (p ∷ ps) qs = elim (Bool-cases p.stitch) [
  | inl more ↦
      left_more pending p (ps ++ qs) more
      ∙ left-append (pending ++ contents p) ps qs
      ∙ ap (λ b. left b qs) (sym (left_more pending p ps more))
  | inr end ↦
      left_end pending p (ps ++ qs) end
      ∙ left-append [] ps qs
      ∙ ap (λ b. left b qs) (sym (left_end pending p ps end))
]

-- The messages of the packets in front come first.
pub assemble-append :
    (pending : Bytes) (ps qs : List StitchPacket)
    → assemble pending (ps ++ qs) ≡ assemble pending ps ++ assemble (left pending ps) qs
assemble-append pending [] qs = refl
assemble-append pending (p ∷ ps) qs = elim (Bool-cases p.stitch) [
  | inl more ↦
      assemble_more pending p (ps ++ qs) more
      ∙ assemble-append (pending ++ contents p) ps qs
      ∙ ap (λ b. assemble (pending ++ contents p) ps ++ assemble b qs)
          (sym (left_more pending p ps more))
      ∙ ap (λ m. m ++ assemble (left pending (p ∷ ps)) qs) (sym (assemble_more pending p ps more))
  | inr end ↦
      assemble_end pending p (ps ++ qs) end
      ∙ ap (λ m. (pending ++ contents p) ∷ m) (assemble-append [] ps qs)
      ∙ ap (λ b. (pending ++ contents p) ∷ (assemble [] ps ++ assemble b qs))
          (sym (left_end pending p ps end))
      ∙ ap (λ m. m ++ assemble (left pending (p ∷ ps)) qs) (sym (assemble_end pending p ps end))
]

-- One more packet at the end.
pub Fits-append :
    (pending : Bytes) (ps : List StitchPacket) (p : StitchPacket)
    → Fits pending ps
    → IsUsbPacket p
    → length (left pending ps) + p.length ≤ max_asynchronous_buffer
    → Fits pending (ps ++ (p ∷ []))
Fits-append pending [] p fits u small = (u, small, tt)
Fits-append pending (q ∷ ps) p (v, room, fits) u small = elim (Bool-cases q.stitch) [
  | inl more ↦ (
    v,
    room,
    rw more (
        Fits-append (pending ++ contents q) ps p (rw more at fits) u
          (rw (left_more pending q ps more) at small)),
  )
  | inr end ↦ (
    v,
    room,
    rw end (Fits-append [] ps p (rw end at fits) u (rw (left_end pending q ps end) at small)),
  )
]

module _ {t t' : ReceiveThread} (p : StitchPacket) (rest : List StitchPacket) {sent : Option Bytes}
    (x : Passed t p rest t' sent) where
  -- A pass changes neither the messages that are to come nor what is left behind them.
  pub left-Passed :
      left (contents t'.last_received_message) rest
      ≡ left (contents t.last_received_message) (p ∷ rest)
  left-Passed = elim (Bool-cases p.stitch) [
    | inl more ↦
        ap (λ b. left b rest) (rw more at (x.kept))
        ∙ sym (left_more (contents t.last_received_message) p rest more)
    | inr end ↦
        ap (λ b. left b rest) (rw end at (x.kept))
        ∙ sym (left_end (contents t.last_received_message) p rest end)
  ]

  pub Fits-Passed :
      Fits (contents t.last_received_message) (p ∷ rest)
      → Fits (contents t'.last_received_message) rest
  Fits-Passed (u, room, fits) = rw x.kept fits
