-- ===== src/Tests/Opening.antt =====
-- `USBReader::Open`, and restarts.
use cwusb.Base.{◌-◌, ◌^◌, ◌≡◌, refl, true, false, List, [], ◌∷◌, none, some, ok}
use cwusb.ReceiveThread
use cwusb.SendThread
use cwusb.Reader.State.{Reader, make}
use cwusb.Reader.Transfers.{Transfer}
use cwusb.Reader.Device.{
  Device, UsbCall, read_list, free_list, opened, psp_vid, psp_pid, open_device, open_loop,
  open_matching, try_device, claim, handle_close, handle_error,
}
use cwusb.Reader.Loop.{ErrorCodes, recover, read_packet}
use cwusb.Reader.Opening.{open_device-first, open_device-freed}
use cwusb.Reader.Retries.{recover-fails_again}

abbrev closed_reader : Reader
unfolding make ReceiveThread.make SendThread.make
closed_reader = make 10 3 5 2 2

abbrev keyboard : Device
keyboard = record {
  descriptor_result = 0;
  id_vendor = 0x46D;
  id_product = 0xC31C;
  open_result = 0;
  handle = some 5;
  configuration_result = 0;
  claim_result = 0;
}

abbrev psp : Device
psp = record keyboard { id_vendor = psp_vid; id_product = psp_pid; handle = some 7 }

-- A PSP that the user may not open.
abbrev locked : Device
locked = record psp { open_result = 2 ^ 32 - 3; handle = none }

open_device-first_example : open_device closed_reader (some (keyboard ∷ psp ∷ keyboard ∷ [])) ≡ (
  record closed_reader { device_handle = some 7 },
  true,
  read_list 0 ∷ read_list 1 ∷ opened 7 ∷ free_list ∷ [],
)
unfolding make ReceiveThread.make SendThread.make closed_reader
open_device-first_example =
    open_device-first closed_reader (keyboard ∷ []) (keyboard ∷ []) psp 7 refl
      (record { descriptor = refl; other = refl }, tt)
      (record {
        is_psp = record { descriptor = refl; psp = refl };
        opens = refl;
        configured = refl;
        claimed = refl;
      })

open_device-freed_example :
    let (r', found, calls) = open_device closed_reader (some (locked ∷ keyboard ∷ [])) in
    (more : List UsbCall) × (calls ≡ read_list 0 ∷ free_list ∷ read_list 1 ∷ more)
unfolding make ReceiveThread.make SendThread.make closed_reader
open_device-freed_example =
    open_device-freed closed_reader [] [] locked keyboard refl tt
      (record { descriptor = refl; psp = refl }) refl

abbrev error_codes_of_libusb : ErrorCodes
error_codes_of_libusb = record {
  timeout = 2 ^ 32 - 7;
  busy = 2 ^ 32 - 6;
  timeout_negative = refl;
  busy_negative = refl;
}

-- A reader that has used up its 5 retries.
abbrev failing : Reader
failing = record closed_reader {
  device_handle = some 1;
  error = true;
  usb_check_successful = true;
  read_write_retry_counter = 6;
}

abbrev input_output_error : Transfer
input_output_error = record { error = 2 ^ 32 - 1; transferred = 0; bytes = [] }

recover-fails_again_example :
    ((recover failing (some (psp ∷ []))).error ≡ false)
    × ((r' : Reader) × (read_packet error_codes_of_libusb
            (recover failing (some (psp ∷ [])))
            input_output_error
            input_output_error
          ≡ ok (r', []))
        × (r'.error ≡ true))
unfolding make ReceiveThread.make SendThread.make closed_reader recover handle_error handle_close
    open_device open_loop try_device open_matching claim
recover-fails_again_example =
    recover-fails_again error_codes_of_libusb failing (some (psp ∷ [])) input_output_error
      input_output_error refl refl refl refl refl refl refl
