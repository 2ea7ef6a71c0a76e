-- ===== src/Reader/Loop.antt =====
-- The thread of `USBReader::StartReceiverThread`.
use cwusb.Base.{
  ℕ, zero, suc, ◌+◌, ◌≡◌, Bool, true, false, not, ◌&&◌, ◌||◌, List, [], ◌++◌, Option, none, some,
  Result, ok, ◌>>=◌, add32, int_lt, ◌==◌, if◌then◌else◌,
}
use cwusb.Reader.State.{Reader}
use cwusb.Reader.Device.{Device, handle_close, handle_error}
use cwusb.Reader.Transfers.{
  Transfer, Write, usb_bulk_read, usb_check_device, handle_asynchronous_send,
}
use cwusb.Reader.Receive.{receive_callback}

-- libusb's error codes that the loop tells apart. All of libusb's errors are negative.
pub record ErrorCodes : Type 0 where
  pub timeout : ℕ
  pub busy : ℕ
  pub timeout_negative : int_lt timeout 0 ≡ true
  pub busy_negative : int_lt busy 0 ≡ true

-- What libusb does in one pass.
pub record Events : Type 0 where
  pub check : Transfer
  pub devices : Option (List Device)
  pub read : Transfer
  pub hello_write : Transfer
  pub writes : ℕ → Transfer

-- The loop's condition.
unfoldable pub goes_on : Reader → Bool
goes_on r = elim r.device_handle [
  | some handle ↦ true
  | none ↦ int_lt 0 r.retry_counter && not r.stop_request
]

unfoldable pub check_device : Reader → Transfer → Reader × List Write
check_device r t = elim r.usb_check_successful [
  | true ↦ (r, [])
  | false ↦
      let (success, writes) = usb_check_device r t in
      (record r { usb_check_successful = success }, writes)
]

-- Restart the device, or give up after too many restarts.
unfoldable pub recover : Reader → Option (List Device) → Reader
recover r devices =
    let may_retry = int_lt r.retry_counter r.max_fatal_retries in
    if r.error && may_retry || not r.usb_check_successful
    then handle_error r devices
    else if not may_retry
    then record (handle_close r).0 { retry_counter = 0 }
    else r

-- A read that gave no packet.
unfoldable pub read_failed : ErrorCodes → Reader → ℕ → Reader
read_failed codes r result =
    if result == codes.timeout || result == codes.busy then r else (elim r.device_handle [
      | none ↦ record r { error = true }
      | some handle ↦
          let count = add32 r.read_write_retry_counter 1 in
          record r {
            read_write_retry_counter = count;
            error = if int_lt r.max_read_write_retries count then true else r.error;
          }
    ])

unfoldable pub read_packet :
    ErrorCodes → Reader → Transfer → Transfer → Result (Reader × List Write)
read_packet codes r t hello_write =
    let (r₁, result) = usb_bulk_read r t in
    if int_lt 0 result
    then receive_callback (record r₁ { length = result; retry_counter = 0 }) hello_write
    else ok (read_failed codes r₁ result, [])

-- While a frame for the PSP is being sent, nothing is read.
unfoldable pub read_phase : ErrorCodes → Reader → Events → Result (Reader × List Write)
read_phase codes r e =
    if r.send_stitching then ok (r, []) else read_packet codes r e.read e.hello_write

-- While a frame of the PSP is being received, nothing is sent.
unfoldable pub write_phase : Reader → Events → Reader × List Write
write_phase r e = if r.receive_stitching then (r, []) else handle_asynchronous_send e.writes r

-- One pass of the loop's body.
unfoldable pub pass : ErrorCodes → Reader → Events → Result (Reader × List Write)
pass codes r e = elim r.stop_request [
  | true ↦ ok ((handle_close r).0, [])
  | false ↦
      let (r₁, checks) = check_device r e.check in
      read_phase codes (recover r₁ e.devices) e >>= λ (r₂, reads).
      let (r₃, writes) = write_phase r₂ e in ok (r₃, checks ++ (reads ++ writes))
]

-- `while (…)`, for as many passes as the thread gets to make.
unfoldable pub run : ErrorCodes → ℕ → Reader → (ℕ → Events) → ℕ → Result (Reader × List Write)
run codes zero r events i = ok (r, [])
run codes (suc n) r events i = elim (goes_on r) [
  | false ↦ ok (r, [])
  | true ↦ pass codes r (events i) >>= λ (r', writes).
      run codes n r' events (i + 1) >>= λ (r'', more). ok (r'', writes ++ more)
]
