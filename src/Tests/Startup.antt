-- ===== src/Tests/Startup.antt =====
-- `main`.
use cwusb.Base.{
  ℕ, ◌≡◌, refl, true, false, List, [], ◌∷◌, ◌++◌, ◌⊎◌, Option, none, some, equal, Fault, ok, err,
  if◌then◌else◌,
}
use cwusb.ReceiveThread
use cwusb.SendThread
use cwusb.Settings.Numbers.{stoi, magnitude, digits_value}
use cwusb.Settings.Model
use cwusb.Settings.Model.{defaults}
use cwusb.Reader.State
use cwusb.Reader.State.{Reader}
use cwusb.Reader.Control
use cwusb.Reader.Device.{
  Device, psp_vid, psp_pid, open_device, open_loop, open_matching, try_device, claim, handle_close,
}
use cwusb.XLinkKai.Protocol.{default_ip}
use cwusb.XLinkKai.Connection.{Addresses, initial, open_socket}
use cwusb.Main
use cwusb.Main.{Program, Events, make, run, start}
use cwusb.Main.Startup.{run-returns, run-starts, IsThrown}

abbrev home_only : Addresses
home_only = record {
  Address = ℕ;
  from_string = λ text. if equal text default_ip then some 1 else none;
  unset = 0;
}

abbrev plugged_in : Device
plugged_in = record {
  descriptor_result = 0;
  id_vendor = psp_vid;
  id_product = psp_pid;
  open_result = 0;
  handle = some 7;
  configuration_result = 0;
  claim_result = 0;
}

-- The device is there in the second pass only. The third event is that of the test that ends the loop.
abbrev two_tries : List Events
two_tries =
    record { running = true; open_fails = false; send_fails = false; devices = some [] }
    ∷ record {
      running = true;
      open_fails = false;
      send_fails = false;
      devices = some (plugged_in ∷ []);
    }
    ∷ record { running = true; open_fails = false; send_fails = false; devices = some [] }
    ∷ []

-- The device is never there, and the program is told to stop.
abbrev no_device : Events
no_device = record { running = true; open_fails = false; send_fails = false; devices = some [] }

abbrev told_to_stop : Events
told_to_stop = record no_device { running = false }

abbrev no_wait : Reader → Option Reader
no_wait r = none

run-returns_example :
    ((p : Program home_only) × (run no_wait
          (make home_only defaults)
          ((no_device ∷ no_device ∷ []) ++ (told_to_stop ∷ no_device ∷ []))
        ≡ ok (some p)))
    ⊎ ((f : Fault) × (run no_wait
            (make home_only defaults)
            ((no_device ∷ no_device ∷ []) ++ (told_to_stop ∷ no_device ∷ []))
          ≡ err f)
        × IsThrown f)
run-returns_example =
    run-returns no_wait defaults (no_device ∷ no_device ∷ []) told_to_stop (no_device ∷ []) refl

abbrev both_open : Program home_only
unfolding make initial State.make ReceiveThread.make SendThread.make
both_open =
    let p = make home_only defaults in
    record p {
      connection = record p.connection { remote = (1, 34523); is_open = true };
      reader = record p.reader { device_handle = some 7 };
      success = true;
      usb_success = true;
    }

both_opened : run no_wait (make home_only defaults) two_tries ≡ ok (some both_open)
unfolding both_open make initial State.make ReceiveThread.make SendThread.make run Main.pass
    Main.try_connection Main.try_device open_socket open_device open_loop try_device open_matching
    claim handle_close Control.close Control.stop_threads stoi magnitude digits_value equal
both_opened = refl

run-starts_example :
    ((start both_open).settings.engine_status ≡ Model.EngineStatus.running)
    × ((start both_open).connection.receiver_thread ≡ true)
    × ((start both_open).reader.usb_thread ≡ true)
unfolding both_open make initial State.make ReceiveThread.make SendThread.make
run-starts_example = run-starts no_wait defaults two_tries both_open both_opened refl refl
