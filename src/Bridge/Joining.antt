-- ===== src/Bridge/Joining.antt =====
-- The packets that the reader cut from the PSP's, as the messages of the receive thread.
use cwusb.Base.{
  ◌+◌, ◌≤◌, ◌≡◌, sym, ap, ◌∙◌, List, [], ◌∷◌, ◌++◌, append_assoc, Bytes, length, length-append,
  length-take, Bool, arith,
}
use cwusb.Usb.{StitchPacket, max_asynchronous_buffer}
use cwusb.ReceiveThread.Message.{contents}
use cwusb.ReceiveThread.Reassembly.{assemble, assemble_more, assemble_end, Fits}
use cwusb.Reader.Delivery.{IsCopy}
use cwusb.Reader.Stream.{Joins, final, join}

pub assemble-Joins :
    {rest : Bytes} {ps : List StitchPacket} (pending : Bytes) (qs : List StitchPacket)
    → Joins rest ps
    → assemble pending (ps ++ qs) ≡ (pending ++ rest) ∷ assemble [] qs
assemble-Joins pending qs (final {p} good) =
    assemble_end pending p qs good.flag ∙ ap (λ t. (pending ++ t) ∷ assemble [] qs) good.holds
assemble-Joins pending qs (join {rest' = rest'} {p} {ps} chunk split good later) =
    assemble_more pending p (ps ++ qs) good.flag
    ∙ assemble-Joins (pending ++ contents p) qs later
    ∙ ap (λ t. t ∷ assemble [] qs)
        (append_assoc pending (contents p) rest'
          ∙ ap (λ t. pending ++ (t ++ rest')) good.holds
          ∙ ap (λ t. pending ++ t) (sym split))

pub length-IsCopy :
    {chunk : Bytes} {stitch : Bool} {p : StitchPacket}
    → IsCopy chunk stitch p
    → p.length ≡ length chunk
length-IsCopy {p = p} good =
    omega (arith, good.valid, ap length good.holds, length-take p.length p.bytes)

pub Joins-Fits :
    {rest : Bytes} {ps : List StitchPacket} (pending : Bytes) (qs : List StitchPacket)
    → Joins rest ps
    → length pending + length rest ≤ max_asynchronous_buffer
    → Fits [] qs
    → Fits pending (ps ++ qs)
Joins-Fits pending qs (final good) fits others =
    (good.valid, omega (arith, length-IsCopy good), rw good.flag others)
Joins-Fits pending qs (join {rest' = rest'} {p} chunk split good later) fits others = (
  good.valid,
  omega (arith, length-IsCopy good, ap length split, length-append chunk rest'),
  rw (good.flag, good.holds)
      (Joins-Fits (pending ++ chunk) qs later
        (omega (arith, ap length split, length-append chunk rest', length-append pending chunk))
        others),
)
