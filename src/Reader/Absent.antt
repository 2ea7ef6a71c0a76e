-- ===== src/Reader/Absent.antt =====
-- The thread of `USBReader` while the PSP is unplugged.
use cwusb.Base.{
  ℕ, zero, suc, ◌+◌, ◌≡◌, refl, ap, true, false, List, [], ◌++◌, Option, none, some, length, ok,
  add32, minus_one, ◌==◌, arith,
}
use cwusb.Reader.State.{Reader}
use cwusb.Reader.Transfers.{
  Transfer, Write, usb_bulk_read, usb_bulk_write, usb_check_device, send_packet, send_packets,
  handle_asynchronous_send,
}
use cwusb.Reader.Device.{Device, open_device, handle_close, handle_error}
use cwusb.Reader.Loop.{
  ErrorCodes, Events, check_device, recover, read_failed, read_packet, read_phase, write_phase,
  pass,
}
use cwusb.Reader.Opening.{AllOther, open_device-none}

-- libusb lists no PSP, or no devices at all.
abbrev pub IsAbsent : Option (List Device) → Type 0
IsAbsent none = Unit {0}
IsAbsent (some devices) = AllOther devices

-- No device, no request to stop, and the counts.
pub record IsUnplugged (r : Reader) (retries limit : ℕ) : Type 0 where
  pub device : r.device_handle ≡ none
  pub going : r.stop_request ≡ false
  pub retried : r.retry_counter ≡ retries
  pub limited : r.max_fatal_retries ≡ limit

abbrev pub checked : Reader → Reader
checked r = record r { usb_check_successful = true }

pub check_device-absent :
    (r : Reader) (t : Transfer) → r.device_handle ≡ none → check_device r t ≡ (checked r, [])
unfolding check_device usb_check_device
check_device-absent r t absent = ground (arith, absent)

-- Without a device the check succeeds.
pub pass-checked :
    (codes : ErrorCodes) (r : Reader) (e : Events) {r' : Reader} {reads : List Write}
    → r.device_handle ≡ none
    → r.stop_request ≡ false
    → read_phase codes (recover (checked r) e.devices) e ≡ ok (r', reads)
    → pass codes r e ≡ ok ((write_phase r' e).0, reads ++ (write_phase r' e).1)
unfolding pass
pass-checked codes r e absent going read =
    ground (arith, going, check_device-absent r e.check absent, read)

open_device-absent :
    (r : Reader) (devices : Option (List Device)) {retries limit : ℕ}
    → IsAbsent devices
    → IsUnplugged r retries limit
    → IsUnplugged (open_device r devices).0 retries limit
unfolding open_device
open_device-absent r none a u = u
open_device-absent r (some devices) a u = record {
  device = (open_device-none r devices u.device a).0;
  going = u.going;
  retried = u.retried;
  limited = u.limited;
}

handle_close-absent :
    (r : Reader) {retries limit : ℕ}
    → IsUnplugged r retries limit
    → IsUnplugged (handle_close r).0 retries limit
unfolding handle_close
handle_close-absent r u = ground (arith, u)

pub handle_error-absent :
    (r : Reader) (devices : Option (List Device)) {retries limit : ℕ}
    → IsAbsent devices
    → IsUnplugged r retries limit
    → IsUnplugged (handle_error r devices) (add32 retries 1) limit
      × ((handle_error r devices).send_stitching ≡ false)
unfolding handle_error
handle_error-absent r devices a u =
    let o = open_device-absent (handle_close r).0 devices a (handle_close-absent r u) in
    (
      record {
        device = o.device;
        going = o.going;
        retried = ap (λ n. add32 n 1) o.retried;
        limited = o.limited;
      },
      refl,
    )

-- A read without a device is an error of its own, that asks for a restart.
pub read_phase-absent :
    (codes : ErrorCodes) (r : Reader) (e : Events) {retries limit : ℕ}
    → minus_one == codes.timeout ≡ false
    → minus_one == codes.busy ≡ false
    → IsUnplugged r retries limit
    → r.send_stitching ≡ false
    → (read_phase codes r e ≡ ok (record r { error = true }, []))
unfolding read_phase read_packet usb_bulk_read read_failed
read_phase-absent codes r e nt nb u off = ground (arith, u.device)

send_packet-absent :
    (r : Reader) (t : Transfer) {retries limit : ℕ}
    → IsUnplugged r retries limit
    → r.error ≡ true
    → IsUnplugged (send_packet r t).0 retries limit × ((send_packet r t).0.error ≡ true)
unfolding send_packet usb_bulk_write
send_packet-absent r t u err = ground (arith, u)

send_packets-absent :
    (n : ℕ) (outcome : ℕ → Transfer) (i : ℕ) (r : Reader) {retries limit : ℕ}
    → IsUnplugged r retries limit
    → r.error ≡ true
    → IsUnplugged (send_packets n outcome i r).0 retries limit
      × ((send_packets n outcome i r).0.error ≡ true)
unfolding send_packets
send_packets-absent zero outcome i r u err = (u, err)
send_packets-absent (suc n) outcome i r u err =
    let (u', err') = send_packet-absent r (outcome i) u err in
    ground (arith, u, send_packets-absent n outcome (i + 1) (send_packet r (outcome i)).0 u' err')

pub write_phase-absent :
    (r : Reader) (e : Events) {retries limit : ℕ}
    → IsUnplugged r retries limit
    → r.error ≡ true
    → IsUnplugged (write_phase r e).0 retries limit × ((write_phase r e).0.error ≡ true)
unfolding write_phase handle_asynchronous_send
write_phase-absent r e u err =
    ground (arith, u, send_packets-absent (length r.send_thread.outgoing_queue) e.writes 0 r u err)
