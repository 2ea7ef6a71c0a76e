-- ===== src/Reader/Running.antt =====
-- The thread of `USBReader` while it reads packets of the user's channel and has nothing to send.
use cwusb.Base.{
  ℕ, suc, ◌+◌, ◌≡◌, ap, ◌∙◌, true, false, ◌||◌, ◌==◌, List, [], ◌∷◌, Bytes, length, Option, ok,
  Result-cases, inl, inr, int_lt, le32, arith,
}
use cwusb.Reader.State.{Reader}
use cwusb.Usb.{host_fs}
use cwusb.Reader.Transfers.{
  Transfer, Write, usb_hello_endpoint, usb_check_device, usb_bulk_write, send_packets,
  handle_asynchronous_send,
}
use cwusb.Reader.Device.{Device}
use cwusb.Reader.Loop.{
  ErrorCodes, Events, goes_on, check_device, recover, read_packet, read_phase, write_phase, pass,
  run,
}
use cwusb.Reader.Delivery.{read_of, IsOpen}
use cwusb.Reader.Reads.{read_all}
use cwusb.Reader.Reading.{IsReading, AllAsync, read_packet-IsReading}

module _ (r : Reader) (v : IsReading r) where
  pub check_device-IsReading : (t : Transfer) → check_device r t ≡ (r, [])
  unfolding check_device
  check_device-IsReading t = ground (arith, v.checked)

  pub recover-IsReading : (devices : Option (List Device)) → recover r devices ≡ r
  unfolding recover
  recover-IsReading devices = ground (arith, v.checked, v.no_error, v.retries)

  read_phase-IsReading :
      (codes : ErrorCodes) (e : Events) {r₁ : Reader}
      → read_packet codes r e.read e.hello_write ≡ ok (r₁, [])
      → read_phase codes r e ≡ ok (r₁, [])
  unfolding read_phase
  read_phase-IsReading codes e reads = ground (arith, v.not_sending, reads)

  pub goes_on-IsReading : goes_on r ≡ true
  unfolding goes_on
  goes_on-IsReading = ground (arith, v.opened.is_open)

module _ (r : Reader) (empty : r.send_thread.outgoing_queue ≡ []) where
  nothing_sent : (outcome : ℕ → Transfer) → handle_asynchronous_send outcome r ≡ (r, [])
  unfolding handle_asynchronous_send send_packets
  nothing_sent outcome = ap (λ q. send_packets (length q) outcome 0 r) empty

  pub write_phase-empty : (e : Events) → write_phase r e ≡ (r, [])
  unfolding write_phase
  write_phase-empty e = ground (arith, nothing_sent e.writes)

pub pass-IsReading :
    (codes : ErrorCodes) (r r₁ r₂ : Reader) (e : Events) {out : List Write}
    → IsReading r
    → read_packet codes r e.read e.hello_write ≡ ok (r₁, [])
    → write_phase r₁ e ≡ (r₂, out)
    → pass codes r e ≡ ok (r₂, out)
unfolding pass
pass-IsReading codes r r₁ r₂ e v reads writes = ground (
  arith,
  v.going,
  check_device-IsReading r v e.check,
  recover-IsReading r v e.devices,
  read_phase-IsReading r v codes e reads,
  writes,
)

-- The passes read the packets, one each.
abbrev pub Feeds : (ℕ → Events) → ℕ → List Bytes → Type 0
Feeds events i [] = Unit {0}
Feeds events i (w ∷ ws) = ((events i).read ≡ read_of w) × Feeds events (i + 1) ws

run-pass :
    (codes : ErrorCodes) (n i : ℕ) (r r₁ r' : Reader) (events : ℕ → Events)
    → goes_on r ≡ true
    → pass codes r (events i) ≡ ok (r₁, [])
    → run codes n r₁ events (i + 1) ≡ ok (r', [])
    → run codes (suc n) r events i ≡ ok (r', [])
unfolding run
run-pass codes n i r r₁ r' events goes passes ran = ground (arith, goes, passes, ran)

pub read_all-step :
    (codes : ErrorCodes) (t : Transfer) (w : Bytes) (ws : List Bytes) (r : Reader) {r₁ r' : Reader}
    {writes : List Write}
    → read_packet codes r (read_of w) t ≡ ok (r₁, writes)
    → read_all codes t (w ∷ ws) r ≡ ok r'
    → read_all codes t ws r₁ ≡ ok r'
read_all-step codes t w ws r read reads = ground (arith, read, reads)

-- The thread's loop does what the reads do one after the other: as many passes as there are
-- packets, with anything else that may happen in them, leave the reader that the reads leave.
pub run-read_all :
    (codes : ErrorCodes) (t : Transfer) (ws : List Bytes) (r r' : Reader) (events : ℕ → Events)
    (i : ℕ)
    → IsReading r
    → r.send_thread.outgoing_queue ≡ []
    → AllAsync ws
    → Feeds events i ws
    → read_all codes t ws r ≡ ok r'
    → (run codes (length ws) r events i ≡ ok (r', []))
      × IsReading r'
      × (r'.send_thread ≡ r.send_thread)
unfolding run
run-read_all codes t [] r r' events i v empty a feeds reads =
    let same : r ≡ r' = ground (arith, reads) in (rw same, rw same at v, rw same)
run-read_all codes t (w ∷ ws) r r' events i v empty (a, others) (feed, feeds) reads =
    elim (Result-cases (read_packet codes r (read_of w) t)) [
      | inr (f, fails) ↦ absurd (ground (arith, fails, reads))
      | inl ((r₁, writes), read) ↦
          let (each, v₁, same) = read_packet-IsReading codes r w v a t read in
          let empty₁ = ap (λ s. s.outgoing_queue) same ∙ empty in
          let passes : pass codes r (events i) ≡ ok (r₁, []) =
            pass-IsReading codes r r₁ r₁ (events i) v (rw feed (each (events i).hello_write))
              (write_phase-empty r₁ empty₁ (events i)) in
          let (ran, v', same') =
            run-read_all codes t ws r₁ r' events (i + 1) v₁ empty₁ others feeds
              (read_all-step codes t w ws r read reads) in
          (
            run-pass codes (length ws) i r r₁ r' events (goes_on-IsReading r v) passes ran,
            v',
            same' ∙ same,
          )
    ]

-- What a pass writes to ask for the device.
abbrev pub hello_of_check : Write
hello_of_check = (usb_hello_endpoint, le32 host_fs)

-- A check that the PSP has taken.
pub record IsAnswered (t : Transfer) : Type 0 where
  pub no_error : int_lt t.error 0 ≡ false
  pub taken : t.transferred ≡ 4

-- A read that ends without a packet, for its time or since the device is busy.
pub record IsQuiet (codes : ErrorCodes) (t : Transfer) : Type 0 where
  pub waits : (t.error == codes.timeout || t.error == codes.busy) ≡ true
  pub nothing : t.bytes ≡ []

pub check_device-answered :
    (r : Reader) (t : Transfer)
    → r.usb_check_successful ≡ false
    → IsOpen r
    → IsAnswered t
    → check_device r t ≡ (record r { usb_check_successful = true }, hello_of_check ∷ [])
unfolding check_device usb_check_device usb_bulk_write
check_device-answered r t unchecked o a = ground (arith, unchecked, o.is_open, a.no_error, a.taken)

-- The first pass after a restart asks for the device and does the same otherwise.
pass-answered :
    (codes : ErrorCodes) (r r₁ : Reader) (e : Events)
    → r.usb_check_successful ≡ false
    → IsAnswered e.check
    → IsReading (record r { usb_check_successful = true })
    → read_packet codes (record r { usb_check_successful = true }) e.read e.hello_write
      ≡ ok (r₁, [])
    → r₁.send_thread.outgoing_queue ≡ []
    → pass codes r e ≡ ok (r₁, hello_of_check ∷ [])
unfolding pass
pass-answered codes r r₁ e unchecked a v reads empty =
    let r₀ : Reader = record r { usb_check_successful = true } in
    let o : IsOpen r = record {
      handle = v.opened.handle;
      is_open = v.opened.is_open;
      array = v.opened.array;
    } in
    ground (
      arith,
      v.going,
      check_device-answered r e.check unchecked o a,
      recover-IsReading r₀ v e.devices,
      read_phase-IsReading r₀ v codes e reads,
      write_phase-empty r₁ empty e,
    )

run-first :
    (codes : ErrorCodes) (n i : ℕ) (r r₁ r' : Reader) (events : ℕ → Events) (write : Write)
    → goes_on r ≡ true
    → pass codes r (events i) ≡ ok (r₁, write ∷ [])
    → run codes n r₁ events (i + 1) ≡ ok (r', [])
    → run codes (suc n) r events i ≡ ok (r', write ∷ [])
unfolding run
run-first codes n i r r₁ r' events write goes passes ran = ground (arith, goes, passes, ran)

-- The loop on a device that is not checked yet.
pub run-answered :
    (codes : ErrorCodes) (t : Transfer) (w : Bytes) (ws : List Bytes) (r r' : Reader)
    (events : ℕ → Events) (i : ℕ)
    → r.usb_check_successful ≡ false
    → IsAnswered (events i).check
    → IsReading (record r { usb_check_successful = true })
    → r.send_thread.outgoing_queue ≡ []
    → AllAsync (w ∷ ws)
    → Feeds events i (w ∷ ws)
    → read_all codes t (w ∷ ws) (record r { usb_check_successful = true }) ≡ ok r'
    → (run codes (suc (length ws)) r events i ≡ ok (r', hello_of_check ∷ []))
      × IsReading r'
      × (r'.send_thread ≡ r.send_thread)
unfolding goes_on
run-answered codes t w ws r r' events i unchecked answered v empty (a, others) (feed, feeds) reads =
    let r₀ : Reader = record r { usb_check_successful = true } in
    elim (Result-cases (read_packet codes r₀ (read_of w) t)) [
      | inr (f, fails) ↦ absurd (ground (arith, fails, reads))
      | inl ((r₁, writes), read) ↦
          let (each, v₁, same) = read_packet-IsReading codes r₀ w v a t read in
          let empty₁ = ap (λ s. s.outgoing_queue) same ∙ empty in
          let passes : pass codes r (events i) ≡ ok (r₁, hello_of_check ∷ []) =
            pass-answered codes r r₁ (events i) unchecked answered v
              (rw feed (each (events i).hello_write)) empty₁ in
          let (ran, v', same') =
            run-read_all codes t ws r₁ r' events (i + 1) v₁ empty₁ others feeds
              (read_all-step codes t w ws r₀ read reads) in
          (
            run-first codes (length ws) i r r₁ r' events hello_of_check (goes_on-IsReading r₀ v)
                passes ran,
            v',
            same' ∙ same,
          )
    ]
