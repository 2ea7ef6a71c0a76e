-- ===== src/Reader/Retries.antt =====
-- `mReadWriteRetryCounter` and `USBReader::HandleError`.
use cwusb.Base.{
  ℕ, ◌≡◌, ap, ◌∙◌, true, false, List, [], Option, some, ok, add32, int_lt, ◌==◌, arith,
}
use cwusb.Reader.State.{Reader}
use cwusb.Reader.Transfers.{Transfer, usb_bulk_read}
use cwusb.Reader.Device.{Device, handle_close, handle_error, open_device}
use cwusb.Reader.Loop.{ErrorCodes, recover, read_failed, read_packet}

handle_error-keeps :
    (r : Reader) (devices : Option (List Device))
    → ((handle_error r devices).read_write_retry_counter ≡ r.read_write_retry_counter)
      × ((handle_error r devices).max_read_write_retries ≡ r.max_read_write_retries)
      × ((handle_error r devices).error ≡ false)
unfolding handle_error handle_close open_device
handle_error-keeps r devices = ground arith

recover_restarts :
    (r : Reader) (devices : Option (List Device))
    → r.error ≡ true
    → int_lt r.retry_counter r.max_fatal_retries ≡ true
    → recover r devices ≡ handle_error r devices
unfolding recover
recover_restarts r devices error may = ground arith

read_packet-fails :
    (codes : ErrorCodes) (r : Reader) (t hello_write : Transfer) {handle : ℕ}
    → r.device_handle ≡ some handle
    → int_lt r.max_read_write_retries (add32 r.read_write_retry_counter 1) ≡ true
    → int_lt t.error 0 ≡ true
    → t.error == codes.timeout ≡ false
    → t.error == codes.busy ≡ false
    → (r' : Reader) × (read_packet codes r t hello_write ≡ ok (r', [])) × (r'.error ≡ true)
unfolding read_packet read_failed usb_bulk_read
read_packet-fails codes r t hello_write opened used_up negative no_timeout not_busy =
    (read_failed codes (usb_bulk_read r t).0 t.error, ground arith, ground arith)

-- Once the failed reads and writes have used up their retries, a restart of the device does not
-- bring them back: if the device is open after the restart, the next read that fails, but for a
-- timeout or a busy device, asks for another restart.
pub recover-fails_again :
    (codes : ErrorCodes) (r : Reader) (devices : Option (List Device)) (t hello_write : Transfer)
    {handle : ℕ}
    → r.error ≡ true
    → int_lt r.retry_counter r.max_fatal_retries ≡ true
    → int_lt r.max_read_write_retries (add32 r.read_write_retry_counter 1) ≡ true
    → (recover r devices).device_handle ≡ some handle
    → int_lt t.error 0 ≡ true
    → t.error == codes.timeout ≡ false
    → t.error == codes.busy ≡ false
    → ((recover r devices).error ≡ false)
      × ((r' : Reader) × (read_packet codes (recover r devices) t hello_write ≡ ok (r', []))
          × (r'.error ≡ true))
recover-fails_again codes r devices t hello_write error may used_up opened negative no_timeout
      not_busy =
    let restarted = recover_restarts r devices error may in
    let (count, limit, cleared) = handle_error-keeps r devices in
    (
      ap (λ x. x.error) restarted ∙ cleared,
      read_packet-fails codes (recover r devices) t hello_write opened
          (rw (restarted, count, limit) used_up) negative no_timeout not_busy,
    )
