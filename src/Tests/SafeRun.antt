-- ===== src/Tests/SafeRun.antt =====
-- The reader's thread on bytes that mean nothing.
use cwusb.Base.{ℕ, ◌-◌, ◌^◌, refl, none, some, replicate}
use cwusb.ReceiveThread
use cwusb.SendThread
use cwusb.Reader.State.{Reader, make}
use cwusb.Reader.Transfers.{Transfer}
use cwusb.Reader.Loop.{ErrorCodes, Events}

abbrev open_reader : Reader
unfolding make ReceiveThread.make SendThread.make
open_reader = record (make 10 3 5 2 2) { device_handle = some 1 }

abbrev negative_codes : ErrorCodes
negative_codes = record {
  timeout = 2 ^ 32 - 7;
  busy = 2 ^ 32 - 6;
  timeout_negative = refl;
  busy_negative = refl;
}

abbrev sevens : Transfer
sevens = record { error = 0; transferred = 512; bytes = replicate 512 7 }

abbrev noise : ℕ → Events
noise i = record {
  check = sevens;
  devices = none;
  read = sevens;
  hello_write = sevens;
  writes = λ j. sevens;
}
