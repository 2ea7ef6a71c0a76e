-- ===== src/SendThread/Count.antt =====
-- How many USB packets a frame takes.
use cwusb.Base.{◌+◌, ◌-◌, ◌/◌, ◌≤◌, ◌<◌, ◌≡◌, ap, List, Bytes, length, length-append, arith}
use cwusb.Usb.{StitchPacket}
use cwusb.SendThread.Packets.{length_header}
use cwusb.SendThread.Cutting.{Carries, last, more}

-- Some byte is carried.
pub Carries-pos : {h rest : Bytes} {ps : List StitchPacket} → Carries h rest ps → 0 < length rest
Carries-pos (last {rest} w pos l small s) = pos
Carries-pos (more {rest' = rest'} chunk e w l full s c) =
    omega (arith, ap length e, length-append chunk rest', Carries-pos c)

pub length-Carries :
    {h rest : Bytes} {ps : List StitchPacket}
    → Carries h rest ps
    → 8 ≤ length h
    → length ps ≡ 1 + (length rest + length h - 9) / 504
length-Carries (last {h} {rest} w pos l small s) k =
    omega (arith, ap length w, length-append h rest)
length-Carries (more {h} {rest' = rest'} chunk e w l full s c) k = omega (
  arith,
  ap length e,
  ap length w,
  length-append h chunk,
  length-append chunk rest',
  Carries-pos c,
  length_header,
  length-Carries c (omega (arith, length_header)),
)
