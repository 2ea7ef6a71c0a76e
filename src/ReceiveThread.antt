-- ===== src/ReceiveThread.antt =====
-- Sources/USBReceiveThread.cpp: `USBReceiveThread` puts the USB packets of a frame back together and
-- hands the frame to `XLinkKaiConnection::Send`. The queue holds its front first.
pub mod Message
pub mod Reassembly
pub mod Pending
pub mod Interleaving
use cwusb.Base.{
  ℕ, zero, suc, Bool, true, false, ◌||◌, List, [], ◌∷◌, ◌++◌, Option, none, some, Bytes, length,
  take, Result, ok, ◌>>=◌, memcpy, add16, to_size, ltb, if◌then◌else◌,
}
use cwusb.Usb.{StitchPacket, empty_stitch_wifi_packet, max_asynchronous_buffer}

pub record ReceiveThread : Type 0 where
  pub max_buffer_size : ℕ
  pub done : Bool
  pub last_received_message : StitchPacket
  pub queue : List StitchPacket
  pub stop_request : Bool
  pub running : Bool

unfoldable pub make : ℕ → ReceiveThread
make max_buffer_size = record {
  max_buffer_size = max_buffer_size;
  done = true;
  last_received_message = empty_stitch_wifi_packet;
  queue = [];
  stop_request = false;
  running = false;
}

-- Append to a message that was too big for the USB buffer, or replace the last one.
unfoldable pub stitch_onto : StitchPacket → StitchPacket → Result StitchPacket
stitch_onto last front =
    if last.stitch
    then (do
      bytes ← memcpy last.bytes last.length front.bytes 0 front.length
      ok (record { bytes = bytes; length = add16 last.length front.length; stitch = front.stitch }))
    else (do
      bytes ← memcpy last.bytes 0 front.bytes 0 front.length
      ok (record { bytes = bytes; length = front.length; stitch = front.stitch }))

-- Drop the message, send it off (the option), or go on stitching.
unfoldable pub send_off : StitchPacket → Bool → StitchPacket × Option Bytes
send_off message stitch =
    if ltb max_asynchronous_buffer message.length
    then (empty_stitch_wifi_packet, none)
    else if stitch
    then (message, none)
    else (empty_stitch_wifi_packet, some (take message.length message.bytes))

-- One pass of the thread's loop, with what it gives to `mConnection.Send`.
unfoldable pub run_once : ReceiveThread → Result (ReceiveThread × Option Bytes)
run_once t = elim t.queue [
  | [] ↦ ok (t, none)
  | front ∷ rest ↦ stitch_onto t.last_received_message front >>= λ message.
      let (last, sent) = send_off message front.stitch in
      ok (record t { queue = rest; last_received_message = last }, sent)
]

abbrev pub with_sent : Option Bytes → List Bytes → List Bytes
with_sent none messages = messages
with_sent (some message) messages = message ∷ messages

-- `while (!mStopRequest)` and the `mDone` behind it, for as many passes as the thread gets to make, with all that it sends.
unfoldable pub run_passes : ℕ → ReceiveThread → Result (ReceiveThread × List Bytes)
run_passes zero t = ok (t, [])
run_passes (suc n) t = elim t.stop_request [
  | true ↦ ok (record t { done = true }, [])
  | false ↦ do
    (t', sent) ← run_once t
    (t'', messages) ← run_passes n t'
    ok (t'', with_sent sent messages)
]

unfoldable pub start_thread : ReceiveThread → ReceiveThread × Bool
start_thread t = (if t.running then t else record t { done = false; running = true }, true)

unfoldable pub clear_queues : ReceiveThread → ReceiveThread
clear_queues t = record t { queue = []; last_received_message = empty_stitch_wifi_packet }

-- A thread that runs sees the request and sets `mDone`; `none` is the wait for one that does not run
-- and was not done.
unfoldable pub stop_thread : ReceiveThread → Option ReceiveThread
unfolding clear_queues
stop_thread t =
    if t.running || t.done
    then some
        (record (clear_queues (record t { stop_request = true; done = true })) { running = false })
    else none

unfoldable pub add_to_queue : ReceiveThread → StitchPacket → ReceiveThread × Bool
add_to_queue t packet =
    if ltb (length t.queue) (to_size t.max_buffer_size)
    then (record t { queue = t.queue ++ (packet ∷ []) }, true)
    else (t, false)
