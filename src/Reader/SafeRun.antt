-- ===== src/Reader/SafeRun.antt =====
-- The thread of `USBReader` on any bytes, and its arrays.
use cwusb.Base.{ℕ, ◌++◌, length, drop, ◌==◌, if◌then◌else◌}
use cwusb.ReceiveThread
use cwusb.Reader.State.{Reader}
use cwusb.Reader.Transfers.{Transfer}
use cwusb.Reader.Device.{Device}

abbrev stored : Reader → Transfer → Reader
stored r t = record r {
  temporary_receive_buffer = t.bytes ++ drop (length t.bytes) r.temporary_receive_buffer;
}

abbrev taken : Transfer → ℕ
taken t = if t.error == 0 then t.transferred else t.error
