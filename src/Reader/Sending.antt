-- ===== src/Reader/Sending.antt =====
-- The packets that `USBReader` writes, beside those that it reads.
use cwusb.Base.{
  ℕ, ◌+◌, ◌≡◌, refl, ap, ◌∙◌, Bool, false, List, [], ◌∷◌, map, Bytes, length, some, Result, ok,
  Result-cases, inl, inr, int_lt, ltb, ◌&&◌, get32, add32, sub32, minus_one, ◌==◌, arith,
}
use cwusb.Usb.{StitchPacket}
use cwusb.SendThread.{SendThread, has_outgoing_data, pop_from_outgoing_queue}
use cwusb.Reader.State.{Reader}
use cwusb.Reader.Transfers.{Transfer, Write, usb_bulk_write, send_packet, send_packets}
use cwusb.Reader.Receive.{copy_packet, handle_first, handle_next, handle_asynchronous}
use cwusb.Reader.Loop.{ErrorCodes, read_packet}
use cwusb.Reader.Delivery.{read_of, loaded}
use cwusb.Reader.Reads.{read_all}
use cwusb.Reader.Writing.{write_of}
use cwusb.Reader.Reading.{
  IsReading, IsAsync, AllAsync, handled-read_packet, read_packet-handled, read_packet-IsReading,
}
use cwusb.Reader.Running.{read_all-step}

-- libusb takes the write.
pub record IsTaken (t : Transfer) : Type 0 where
  pub no_error : int_lt t.error 0 ≡ false
  pub counted : t.transferred == minus_one ≡ false

-- Whether a frame is half sent after the packets.
abbrev pub half_sent : Bool → List StitchPacket → Bool
half_sent flag [] = flag
half_sent flag (p ∷ ps) = half_sent p.stitch ps

abbrev pub with_send : Reader → SendThread → Bool → Reader
with_send r s flag = record r { send_thread = s; send_stitching = flag }

abbrev with_outgoing : Reader → List StitchPacket → Bool → Reader
with_outgoing r ps flag = with_send r (record r.send_thread { outgoing_queue = ps }) flag

send_packet-taken :
    (r : Reader) (t : Transfer) (p : StitchPacket) (ps : List StitchPacket) {handle : ℕ}
    → r.device_handle ≡ some handle
    → r.send_thread.outgoing_queue ≡ p ∷ ps
    → IsTaken t
    → send_packet r t ≡ (with_outgoing r ps p.stitch, write_of p ∷ [])
unfolding send_packet usb_bulk_write pop_from_outgoing_queue
send_packet-taken r t p ps opened front taken =
    ground (arith, opened, front, taken.no_error, taken.counted)

pub send_packets-taken :
    (ps : List StitchPacket) (outcome : ℕ → Transfer) (i : ℕ) (r : Reader) {handle : ℕ}
    → r.device_handle ≡ some handle
    → r.stop_request ≡ false
    → r.send_thread.outgoing_queue ≡ ps
    → ((j : ℕ) → IsTaken (outcome j))
    → send_packets (length ps) outcome i r
      ≡ (with_outgoing r [] (half_sent r.send_stitching ps), map write_of ps)
unfolding send_packets has_outgoing_data
send_packets-taken [] outcome i r opened going queue taken =
    ap {B = Reader × List Write} (λ q. (with_outgoing r q r.send_stitching, [])) queue
send_packets-taken (p ∷ ps) outcome i r opened going queue taken =
    let r₁ : Reader = with_outgoing r ps p.stitch in
    let first = send_packet-taken r (outcome i) p ps opened queue (taken i) in
    let others = send_packets-taken ps outcome (i + 1) r₁ opened going refl taken in
    ground (arith, going, queue, first, others)

-- The stitching code does the same, whatever waits to be sent.
handle_first-with_send :
    (r : Reader) (n : ℕ) (s : SendThread) (flag : Bool) {r' : Reader}
    → handle_first r n ≡ ok r'
    → handle_first (with_send r s flag) n ≡ ok (with_send r' s flag)
unfolding handle_first
handle_first-with_send r n s flag e =
    elim (Result-cases (
      copy_packet r.temporary_receive_buffer 24 n
        (ltb 488 (get32 r.temporary_receive_buffer 16)))) [
          | inr (f, fails) ↦ absurd (ground (arith, fails, e))
          | inl (p, copies) ↦ ground (arith, copies, e)
        ]

handle_next-with_send :
    (r : Reader) (n : ℕ) (s : SendThread) (flag : Bool) {r' : Reader}
    → handle_next r n ≡ ok r'
    → handle_next (with_send r s flag) n ≡ ok (with_send r' s flag)
unfolding handle_next
handle_next-with_send r n s flag e =
    let total = add32 r.stitching_length (sub32 n 8) in
    elim (Result-cases
      (copy_packet r.temporary_receive_buffer 8 n (ltb 504 n && int_lt total r.actual_length))) [
        | inr (f, fails) ↦ absurd (ground (arith, fails, e))
        | inl (p, copies) ↦ ground (arith, copies, e)
      ]

handle_asynchronous-with_send :
    (r : Reader) (n : ℕ) (s : SendThread) (flag : Bool) {r' : Reader}
    → handle_asynchronous r n ≡ ok r'
    → handle_asynchronous (with_send r s flag) n ≡ ok (with_send r' s flag)
unfolding handle_asynchronous
handle_asynchronous-with_send r n s flag {r'} e = ground (
  arith,
  e,
  handle_first-with_send r n s flag {r' = r'},
  handle_next-with_send r n s flag {r' = r'},
)

pub with_send-IsReading :
    (r : Reader) (s : SendThread) → IsReading r → IsReading (with_send r s false)
with_send-IsReading r s v = record {
  opened = record { handle = v.opened.handle; is_open = v.opened.is_open; array = v.opened.array };
  going = v.going;
  checked = v.checked;
  no_error = v.no_error;
  not_sending = refl;
  retries = v.retries;
  may_retry = v.may_retry;
}

-- Reads leave the same, whatever waits to be sent.
module _ (codes : ErrorCodes) (t : Transfer) (s : SendThread) where
  read_packet-with_send :
      (r : Reader) (w : Bytes) {r₁ : Reader} {writes : List Write}
      → IsReading r
      → IsAsync w
      → read_packet codes r (read_of w) t ≡ ok (r₁, writes)
      → read_packet codes (with_send r s false) (read_of w) t ≡ ok (with_send r₁ s false, [])
  read_packet-with_send r w v a reads =
      let (r₂, handled, same) = handled-read_packet codes r w v a t reads in
      read_packet-handled codes (with_send r s false) w (with_send-IsReading r s v) a t
        (handle_asynchronous-with_send (loaded r w) (length w) s false handled)
      ∙ ap {B = Result (Reader × List Write)} (λ x. ok (with_send x s false, [])) same

  pub read_all-with_send :
      (ws : List Bytes) (r : Reader) {r' : Reader}
      → IsReading r
      → AllAsync ws
      → read_all codes t ws r ≡ ok r'
      → read_all codes t ws (with_send r s false) ≡ ok (with_send r' s false)
  read_all-with_send [] r v a reads = ground (arith, reads)
  read_all-with_send (w ∷ ws) r {r'} v (a, others) reads =
      elim (Result-cases (read_packet codes r (read_of w) t)) [
        | inr (f, fails) ↦ absurd (ground (arith, fails, reads))
        | inl ((r₁, writes), read) ↦
            let (each, v₁, _) = read_packet-IsReading codes r w v a t read in
            ground (
              arith,
              read_packet-with_send r w v a read,
              read_all-with_send ws r₁ {r' = r'} v₁ others
                  (read_all-step codes t w ws r read reads),
            )
      ]
