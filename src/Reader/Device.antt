-- ===== src/Reader/Device.antt =====
-- Opening, closing and resetting the device.
use cwusb.Base.{
  ℕ, ◌+◌, Bool, true, false, not, ◌&&◌, List, [], ◌∷◌, ◌++◌, Option, none, some, add32, int_lt,
  ◌==◌, if◌then◌else◌,
}
use cwusb.SendThread
use cwusb.ReceiveThread
use cwusb.Reader.State.{Reader}

abbrev pub psp_vid : ℕ
psp_vid = 0x54C

abbrev pub psp_pid : ℕ
psp_pid = 0x1C9

-- A device of libusb's list, with what libusb's calls on it return; an `int` is its bit pattern.
-- `handle` is what `libusb_open` stores when it succeeds.
pub record Device : Type 0 where
  pub descriptor_result : ℕ
  pub id_vendor : ℕ
  pub id_product : ℕ
  pub open_result : ℕ
  pub handle : Option ℕ
  pub configuration_result : ℕ
  pub claim_result : ℕ

-- The calls that take or give up something, in the order in which they are made: an access to the
-- device list by its index, its release, a handle opened, a handle closed.
pub data UsbCall : Type 0 where
  read_list : ℕ → UsbCall
  free_list : UsbCall
  opened : ℕ → UsbCall
  closed : ℕ → UsbCall

-- `>= 0` of an `int`
abbrev pub succeeded : ℕ → Bool
succeeded result = not (int_lt result 0)

-- The handle that `libusb_open` gives: `lReturn >= 0 && lDeviceHandle != nullptr`.
abbrev pub opened_handle : Device → Option ℕ
opened_handle d = if succeeded d.open_result then d.handle else none

-- The device is configured and its interface claimed, or the handle is closed again.
unfoldable pub claim : Device → ℕ → Option ℕ × List UsbCall
claim d handle =
    if succeeded d.configuration_result && d.claim_result == 0
    then (some handle, [])
    else (none, closed handle ∷ [])

-- The list is given back between the two.
unfoldable pub open_matching : Device → Option ℕ × List UsbCall
open_matching d = elim (opened_handle d) [
  | none ↦ (none, free_list ∷ [])
  | some handle ↦ let (found, calls) = claim d handle in (found, opened handle ∷ free_list ∷ calls)
]

abbrev pub is_psp : Device → Bool
is_psp d = d.id_vendor == psp_vid && d.id_product == psp_pid

-- The body of the loop for the device at an index.
unfoldable pub try_device : ℕ → Device → Option ℕ × List UsbCall
try_device index d =
    if succeeded d.descriptor_result
    then (if is_psp d
        then (let (found, calls) = open_matching d in (found, read_list index ∷ calls))
        else (none, read_list index ∷ []))
    else (none, read_list index ∷ free_list ∷ [])

-- `for (lCount = 0; lCount < lAmountOfDevices && mDeviceHandle == nullptr; lCount++)`
unfoldable pub open_loop : ℕ → List Device → Option ℕ → Option ℕ × List UsbCall
open_loop index [] handle = (handle, [])
open_loop index (d ∷ ds) (some handle) = (some handle, [])
open_loop index (d ∷ ds) none =
    let (found, calls) = try_device index d in
    let (handle, more) = open_loop (index + 1) ds found in (handle, calls ++ more)

-- `none` is a list that libusb could not make.
unfoldable pub open_device : Reader → Option (List Device) → Reader × Bool × List UsbCall
open_device r none = (r, (elim r.device_handle [ none ↦ false | some h ↦ true ]), [])
open_device r (some devices) =
    let (handle, calls) = open_loop 0 devices r.device_handle in
    (record r { device_handle = handle }, (elim handle [ none ↦ false | some h ↦ true ]), calls)

unfoldable pub handle_close : Reader → Reader × List UsbCall
handle_close r = elim r.device_handle [
  | none ↦ (record r { stop_request = false }, [])
  | some handle ↦ (record r { device_handle = none; stop_request = false }, closed handle ∷ [])
]

unfoldable pub handle_error : Reader → Option (List Device) → Reader
handle_error r devices =
    let r₁ = (open_device (handle_close r).0 devices).0 in
    record r₁ {
      retry_counter = add32 r₁.retry_counter 1;
      error = false;
      usb_check_successful = false;
      receive_stitching = false;
      send_stitching = false;
      send_thread = SendThread.clear_queues r₁.send_thread;
      receive_thread = ReceiveThread.clear_queues r₁.receive_thread;
    }
