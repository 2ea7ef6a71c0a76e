-- ===== src/Reader/State.antt =====
-- The members of `USBReader`. An `int` is its bit pattern.
use cwusb.Base.{ℕ, Bool, false, Option, none, Bytes, replicate}
use cwusb.Usb.{max_usb_packet_size}
use cwusb.SendThread
use cwusb.SendThread.{SendThread}
use cwusb.ReceiveThread
use cwusb.ReceiveThread.{ReceiveThread}

-- `mUSBSendThread` and `mUSBReceiveThread` are set and reset together: `has_threads` says whether
-- they are not null. `usb_thread` says so of `mUSBThread`, and a device handle is a number.
pub record Reader : Type 0 where
  pub max_buffered_messages : ℕ
  pub max_fatal_retries : ℕ
  pub max_read_write_retries : ℕ
  pub read_timeout_ms : ℕ
  pub write_timeout_ms : ℕ
  pub read_write_retry_counter : ℕ
  pub receive_stitching : Bool
  pub temporary_receive_buffer : Bytes
  pub stop_request : Bool
  pub send_stitching : Bool
  pub device_handle : Option ℕ
  pub error : Bool
  pub length : ℕ
  pub actual_length : ℕ
  pub stitching_length : ℕ
  pub usb_thread : Bool
  pub has_threads : Bool
  pub receive_thread : ReceiveThread
  pub send_thread : SendThread
  pub retry_counter : ℕ
  pub usb_check_successful : Bool

-- The constructor.
unfoldable pub make : ℕ → ℕ → ℕ → ℕ → ℕ → Reader
make max_buffered_messages max_fatal_retries max_read_write_retries read_timeout write_timeout =
    record {
      max_buffered_messages = max_buffered_messages;
      max_fatal_retries = max_fatal_retries;
      max_read_write_retries = max_read_write_retries;
      read_timeout_ms = read_timeout;
      write_timeout_ms = write_timeout;
      read_write_retry_counter = 0;
      receive_stitching = false;
      temporary_receive_buffer = replicate max_usb_packet_size 0;
      stop_request = false;
      send_stitching = false;
      device_handle = none;
      error = false;
      length = 0;
      actual_length = 0;
      stitching_length = 0;
      usb_thread = false;
      has_threads = false;
      receive_thread = ReceiveThread.make max_buffered_messages;
      send_thread = SendThread.make max_buffered_messages;
      retry_counter = 0;
      usb_check_successful = false;
    }
