-- ===== src/Reader/Control.antt =====
-- The methods of `USBReader` that other threads call.
use cwusb.Base.{
  Bool, true, false, not, ◌&&◌, Option, none, some, Bytes, Result, ok, err, null_pointer, ◌>>=◌,
  if◌then◌else◌,
}
use cwusb.SendThread
use cwusb.ReceiveThread
use cwusb.Reader.State.{Reader}
use cwusb.Reader.Device.{handle_close}

-- `Send`, by way of the pointer to the send thread, which is null before `StartReceiverThread` and
-- after `Close`.
unfoldable pub send : Reader → Bytes → Result Reader
send r frame =
    if r.has_threads
    then (SendThread.add_to_queue r.send_thread frame >>= λ (s, accepted).
        ok (record r { send_thread = s }))
    else err null_pointer

abbrev pub has_device : Reader → Bool
has_device r = elim r.device_handle [ none ↦ false | some handle ↦ true ]

-- `StartReceiverThread`
unfoldable pub start_receiver_thread : Reader → Reader × Bool
start_receiver_thread r =
    if has_device r && not r.usb_thread
    then (
      record r {
        receive_thread =
            (ReceiveThread.start_thread (ReceiveThread.make r.max_buffered_messages)).0;
        send_thread = (SendThread.start_thread (SendThread.make r.max_buffered_messages)).0;
        has_threads = true;
        usb_thread = true;
      },
      true,
    )
    else (r, false)

-- The two queues' threads are stopped and given up.
unfoldable pub stop_threads : Reader → Option Reader
stop_threads r =
    if r.has_threads
    then (elim (SendThread.stop_thread r.send_thread) [
      | none ↦ none
      | some s ↦ elim (ReceiveThread.stop_thread r.receive_thread) [
        | none ↦ none
        | some t ↦ some (record r { send_thread = s; receive_thread = t; has_threads = false })
      ]
    ])
    else some r

-- `Close`. `join` is what the device's thread makes of the reader until it ends, and `none` is a
-- wait for a thread that never ends.
unfoldable pub close : (Reader → Option Reader) → Reader → Option Reader
close join r =
    let r₁ : Reader = record r { stop_request = true } in
    if r.usb_thread
    then (elim (join r₁) [
      | none ↦ none
      | some r₂ ↦ stop_threads (record r₂ { usb_thread = false })
    ])
    else stop_threads (handle_close r₁).0

-- The destructor, before it gives up libusb.
unfoldable pub destroy : (Reader → Option Reader) → Reader → Option Reader
destroy join r = close join r
