-- ===== src/Reader/Stop.antt =====
-- How the reader's thread ends: on a request, and after too many restarts.
use cwusb.Base.{
  ℕ, zero, suc, ◌+◌, ◌≡◌, refl, true, false, List, [], Option, none, length, ok, int_lt, minus_one,
  Bool-cases, inl, inr, arith,
}
use cwusb.Reader.State.{Reader}
use cwusb.Reader.Device.{Device, handle_close}
use cwusb.Reader.Transfers.{
  Transfer, Write, usb_bulk_read, usb_bulk_write, send_packet, send_packets,
  handle_asynchronous_send,
}
use cwusb.Reader.Loop.{
  ErrorCodes, Events, goes_on, check_device, recover, read_failed, read_packet, read_phase,
  write_phase, pass,
}

-- A pass that sees the request to stop closes the device and takes the request back, and the
-- loop's condition then holds exactly if restarts are counted.
pub pass_stop :
    (codes : ErrorCodes) (r : Reader) (e : Events)
    → r.stop_request ≡ true
    → (r' : Reader) × (pass codes r e ≡ ok (r', []))
      × (r'.device_handle ≡ none)
      × (r'.stop_request ≡ false)
      × (goes_on r' ≡ int_lt 0 r.retry_counter)
unfolding pass handle_close goes_on
pass_stop codes r e stop =
    ((handle_close r).0, ground arith, ground arith, ground arith, ground arith)

-- Sending changes neither the handle nor the count of restarts.
send_packet_keeps :
    (r : Reader) (t : Transfer)
    → ((send_packet r t).0.device_handle ≡ r.device_handle)
      × ((send_packet r t).0.retry_counter ≡ r.retry_counter)
unfolding send_packet usb_bulk_write
send_packet_keeps r t = ground arith

send_packets_keeps :
    (n : ℕ) (outcome : ℕ → Transfer) (i : ℕ) (r : Reader)
    → ((send_packets n outcome i r).0.device_handle ≡ r.device_handle)
      × ((send_packets n outcome i r).0.retry_counter ≡ r.retry_counter)
unfolding send_packets
send_packets_keeps zero outcome i r = (refl, refl)
send_packets_keeps (suc n) outcome i r = ground (
  arith,
  send_packet_keeps r (outcome i),
  send_packets_keeps n outcome (i + 1) (send_packet r (outcome i)).0,
)

-- The reader without a device and with no restart counted: the loop is over.
abbrev IsOver : Reader → Type 0
IsOver r = (r.device_handle ≡ none) × (r.retry_counter ≡ 0)

IsOver-goes_on : (r : Reader) → IsOver r → goes_on r ≡ false
unfolding goes_on
IsOver-goes_on r o = ground arith

recover_gives_up :
    (r : Reader) (devices : Option (List Device))
    → r.usb_check_successful ≡ true
    → int_lt r.retry_counter r.max_fatal_retries ≡ false
    → IsOver (recover r devices)
unfolding recover handle_close
recover_gives_up r devices checked many = ground arith

read_packet_without_device :
    (codes : ErrorCodes) (r : Reader) (t hello_write : Transfer)
    → IsOver r
    → (r' : Reader) × (read_packet codes r t hello_write ≡ ok (r', [])) × IsOver r'
unfolding read_packet usb_bulk_read read_failed
read_packet_without_device codes r t hello_write o =
    (read_failed codes r minus_one, ground arith, ground arith)

read_phase_without_device :
    (codes : ErrorCodes) (r : Reader) (e : Events)
    → IsOver r
    → (r' : Reader) × (read_phase codes r e ≡ ok (r', [])) × IsOver r'
unfolding read_phase
read_phase_without_device codes r e o = elim (Bool-cases r.send_stitching) [
  | inl sending ↦ (r, ground arith, o)
  | inr reading ↦
      let (r', read, o') = read_packet_without_device codes r e.read e.hello_write o in
      (r', ground (arith, read), o')
]

write_phase_without_device : (r : Reader) (e : Events) → IsOver r → IsOver (write_phase r e).0
unfolding write_phase handle_asynchronous_send
write_phase_without_device r e o =
    ground (arith, send_packets_keeps (length r.send_thread.outgoing_queue) e.writes 0 r)

checked_pass :
    (codes : ErrorCodes) (r : Reader) (e : Events) {r' : Reader}
    → r.stop_request ≡ false
    → r.usb_check_successful ≡ true
    → read_phase codes (recover r e.devices) e ≡ ok (r', [])
    → pass codes r e ≡ ok (write_phase r' e)
unfolding pass check_device
checked_pass codes r e {r'} going checked read = rw (going, pass, checked, check_device, read)

-- A pass that finds the device checked, the restarts used up and no request to stop ends the loop,
-- whatever libusb does in it.
pub pass_gives_up :
    (codes : ErrorCodes) (r : Reader) (e : Events)
    → r.stop_request ≡ false
    → r.usb_check_successful ≡ true
    → int_lt r.retry_counter r.max_fatal_retries ≡ false
    → (r' : Reader) × (writes : List Write) × (pass codes r e ≡ ok (r', writes))
      × (goes_on r' ≡ false)
pass_gives_up codes r e going checked many =
    let (r', read, o) =
      read_phase_without_device codes (recover r e.devices) e
        (recover_gives_up r e.devices checked many) in
    (
      (write_phase r' e).0,
      (write_phase r' e).1,
      checked_pass codes r e going checked read,
      IsOver-goes_on (write_phase r' e).0 (write_phase_without_device r' e o),
    )
