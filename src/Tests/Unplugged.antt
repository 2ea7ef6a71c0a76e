-- ===== src/Tests/Unplugged.antt =====
-- The end of the thread of `USBReader` without a PSP, and the end of `main`.
use cwusb.Base.{ℕ, ◌-◌, ◌^◌, ◌≡◌, refl, inl, inr, true, false, none, some, [], ◌∷◌, ok, arith}
use cwusb.ReceiveThread
use cwusb.SendThread
use cwusb.Reader.State.{Reader, make}
use cwusb.Reader.Transfers.{Transfer}
use cwusb.Reader.Loop.{ErrorCodes, Events, goes_on}
use cwusb.Reader.Unplugged.{Queues, run_among, run_among-ends}
use cwusb.Reader.Device.{Device, psp_vid, psp_pid}
use cwusb.Reader.Reopened.{IsBack}
use cwusb.Reader.Waiting.{close_never_returns}
use cwusb.Reader.Control.{close, start_receiver_thread}
use cwusb.Reader.Closing.{joined, IsClosed}
use cwusb.Settings.Model.{defaults}
use cwusb.XLinkKai.Connection.{Addresses, initial}
use cwusb.Main
use cwusb.Main.{Program, finish}
use cwusb.Main.End.{IsShut, finish-closes}

-- A reader that has restarted the device once and could not open it.
abbrev unplugged : Reader
unfolding make ReceiveThread.make SendThread.make
unplugged = record (make 10 3 5 2 2) {
  usb_thread = true;
  has_threads = true;
  retry_counter = 1;
  error = true;
}

abbrev usb_codes : ErrorCodes
usb_codes = record {
  timeout = 2 ^ 32 - 7;
  busy = 2 ^ 32 - 6;
  timeout_negative = refl;
  busy_negative = refl;
}

abbrev no_transfer : Transfer
no_transfer = record { error = 2 ^ 32 - 4; transferred = 0; bytes = [] }

-- libusb lists no devices, and then cannot make its list.
abbrev no_psp : ℕ → Events
no_psp i = record {
  check = no_transfer;
  devices = some [];
  read = no_transfer;
  hello_write = no_transfer;
  writes = λ j. no_transfer;
}

abbrev untouched : ℕ → Queues
untouched i = (unplugged.send_thread, unplugged.receive_thread)

run_among-ends_example :
    (r' : Reader) × (run_among usb_codes 4 unplugged no_psp untouched 0 ≡ ok r')
    × (goes_on r' ≡ false)
unfolding make ReceiveThread.make SendThread.make unplugged
run_among-ends_example =
    run_among-ends usb_codes refl refl 3 (omega arith) no_psp untouched (λ i. tt) 4 0 unplugged 1
      (record { device = refl; going = refl; retried = refl; limited = refl }) (inl refl)
      (omega arith) (omega arith)

-- A reader with an open device, its threads just started.
abbrev started : Reader
unfolding make ReceiveThread.make SendThread.make start_receiver_thread
started = (start_receiver_thread (record (make 10 3 5 2 2) { device_handle = some 1 })).0

abbrev nowhere : Addresses
nowhere = record { Address = ℕ; from_string = λ text. none; unset = 0 }

-- With a connection that is up.
abbrev at_work : Program nowhere
unfolding Main.make initial
at_work = record (Main.make nowhere defaults) {
  reader = started;
  connection = record (initial nowhere) {
    connected = true;
    is_open = true;
    receiver_thread = true;
  };
}

-- It has restarted the device once, and the PSP is gone.
abbrev at_loss : Program nowhere
unfolding at_work
at_loss = record at_work { reader = record started { retry_counter = 1 } }

abbrev idle_queues : ℕ → Queues
unfolding make ReceiveThread.make SendThread.make start_receiver_thread started
    ReceiveThread.start_thread SendThread.start_thread
idle_queues i = (started.send_thread, started.receive_thread)

finish-closes_example :
    (p' : Program nowhere) × (finish (joined usb_codes 5 no_psp idle_queues) at_loss true ≡ some p')
    × IsClosed p'.reader
    × IsShut p'.connection
unfolding make ReceiveThread.make SendThread.make start_receiver_thread started
    ReceiveThread.start_thread SendThread.start_thread at_work at_loss idle_queues
finish-closes_example =
    finish-closes usb_codes no_psp idle_queues 4 at_loss true refl
      (record { started = refl; send_done = refl; receive_runs = refl }) (λ i. (refl, refl))
      (inr (record {
        no_timeout = refl;
        not_busy = refl;
        absent = λ i. tt;
        notices = inr refl;
        counted = omega arith;
        limited = omega arith;
        enough = omega arith;
      }))

abbrev psp_back : Device
psp_back = record {
  descriptor_result = 0;
  id_vendor = psp_vid;
  id_product = psp_pid;
  open_result = 0;
  handle = some 7;
  configuration_result = 0;
  claim_result = 0;
}

abbrev silent_psp : ℕ → Events
silent_psp i = record {
  check = record { error = 0; transferred = 4; bytes = [] };
  devices = some (psp_back ∷ []);
  read = record { error = 2 ^ 32 - 7; transferred = 0; bytes = [] };
  hello_write = no_transfer;
  writes = λ j. no_transfer;
}

is_back : (i : ℕ) → IsBack usb_codes (silent_psp i)
is_back i = record {
  others = [];
  rest = [];
  psp = psp_back;
  handle = 7;
  listed = refl;
  first = tt;
  usable = record {
    is_psp = record { descriptor = refl; psp = refl };
    opens = refl;
    configured = refl;
    claimed = refl;
  };
  answered = record { no_error = refl; taken = refl };
  waits = record { waits = refl; nothing = refl };
}

close_never_returns_example :
    (close (joined usb_codes 100 silent_psp idle_queues) (record started { retry_counter = 1 })
      ≡ none)
    × ((r' : Reader) × (run_among usb_codes 100
            (record started { retry_counter = 1; stop_request = true })
            silent_psp
            idle_queues
            0
          ≡ ok r')
        × (goes_on r' ≡ true))
unfolding make ReceiveThread.make SendThread.make start_receiver_thread started
    ReceiveThread.start_thread SendThread.start_thread idle_queues
close_never_returns_example =
    close_never_returns usb_codes refl refl silent_psp idle_queues is_back (λ i. refl) 100
      (record started { retry_counter = 1 }) refl refl refl (omega arith) (omega arith)
      (omega arith)
