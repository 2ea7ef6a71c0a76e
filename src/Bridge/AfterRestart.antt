-- ===== src/Bridge/AfterRestart.antt =====
-- Frames from the PSP after `USBReader::HandleError`.
use cwusb.Base.{
  ℕ, ◌≤◌, ◌≡◌, refl, ap, ◌∙◌, false, List, [], Option, none, some, Bytes, length, ok, to_size,
  add32, int_lt, ap₂, ◌<◌, ◌∷◌, true, Option-cases, inl, inr, arith,
}
use cwusb.ReceiveThread
use cwusb.ReceiveThread.{ReceiveThread, clear_queues}
use cwusb.ReceiveThread.Message.{empty-IsMessage}
use cwusb.Reader.State.{Reader}
use cwusb.SendThread
use cwusb.Reader.Loop.{ErrorCodes, Events, run}
use cwusb.Reader.Reading.{IsReading}
use cwusb.Reader.Running.{Feeds, IsAnswered, hello_of_check, run-answered}
use cwusb.Reader.Device.{Device, open_device, handle_close, handle_error}
use cwusb.Reader.Reads.{HasRoom}
use cwusb.Reader.Safety.{IsSafe}
use cwusb.Bridge.Frames.{
  PspStreams, PspStreams-AllAsync, IsIdle, read_all-Queued, run_passes-Queued,
}

-- Opening and closing change the handle and the request to stop.
open_device-keeps :
    (r : Reader) (devices : Option (List Device))
    → (handle : Option ℕ) × ((open_device r devices).0 ≡ record r { device_handle = handle })
unfolding open_device
open_device-keeps r none = (r.device_handle, refl)
open_device-keeps r (some devices) = ((open_device r (some devices)).0.device_handle, refl)

handle_close-keeps :
    (r : Reader)
    → (handle : Option ℕ) × ((handle_close r).0
        ≡ record r { device_handle = handle; stop_request = false })
unfolding handle_close
handle_close-keeps r = elim (Option-cases r.device_handle) [
  | inl absent ↦ (none, ground (arith, absent))
  | inr (h, found) ↦ (none, ground (arith, found))
]

reopened :
    (r : Reader) (devices : Option (List Device))
    → (handle : Option ℕ) × ((open_device (handle_close r).0 devices).0
        ≡ record r { device_handle = handle; stop_request = false })
reopened r devices =
    let (h₁, closes) = handle_close-keeps r in
    let (h₂, opens) = open_device-keeps (handle_close r).0 devices in
    (h₂, opens ∙ ap {A = Reader} {B = Reader} (λ x. record x { device_handle = h₂ }) closes)

-- What a restart leaves.
record Restarted (r r' : Reader) : Type 0 where
  thread : r'.receive_thread ≡ clear_queues r.receive_thread
  buffer : r'.temporary_receive_buffer ≡ r.temporary_receive_buffer
  stitching : r'.receive_stitching ≡ false
  not_sending : r'.send_stitching ≡ false
  nothing_to_cut : r'.send_thread.queue ≡ []
  nothing_to_send : r'.send_thread.outgoing_queue ≡ []
  no_error : r'.error ≡ false
  unchecked : r'.usb_check_successful ≡ false
  going : r'.stop_request ≡ false
  count : r'.retry_counter ≡ add32 r.retry_counter 1
  limit : r'.max_fatal_retries ≡ r.max_fatal_retries

handle_error-Restarted :
    (r : Reader) (devices : Option (List Device)) → Restarted r (handle_error r devices)
unfolding handle_error SendThread.clear_queues
handle_error-Restarted r devices =
    let (handle, opens) = reopened r devices in
    record {
      thread = ap (λ x. clear_queues x.receive_thread) opens;
      buffer = ap (λ x. x.temporary_receive_buffer) opens;
      stitching = refl;
      not_sending = refl;
      nothing_to_cut = refl;
      nothing_to_send = refl;
      no_error = refl;
      unchecked = refl;
      going = ap (λ x. x.stop_request) opens;
      count = ap (λ x. add32 x.retry_counter 1) opens;
      limit = ap (λ x. x.max_fatal_retries) opens;
    }

abbrev checked : Reader → Reader
checked r = record r { usb_check_successful = true }

Restarted-IsReading :
    {r r' : Reader} {handle : ℕ}
    → IsSafe r
    → Restarted r r'
    → r'.device_handle ≡ some handle
    → int_lt (add32 r.retry_counter 1) r.max_fatal_retries ≡ true
    → int_lt 0 r.max_fatal_retries ≡ true
    → IsReading (checked r')
Restarted-IsReading {handle = handle} s x found left may = record {
  opened = record { handle = handle; is_open = found; array = ap length x.buffer ∙ s.array };
  going = x.going;
  checked = refl;
  no_error = x.no_error;
  not_sending = x.not_sending;
  retries = ap₂ int_lt x.count x.limit ∙ left;
  may_retry = ap (int_lt 0) x.limit ∙ may;
}

clear_queues-IsIdle :
    (t : ReceiveThread) (k : ℕ)
    → t.stop_request ≡ false
    → k ≤ to_size t.max_buffer_size
    → IsIdle (clear_queues t) × HasRoom (clear_queues t) k
unfolding clear_queues
clear_queues-IsIdle t k running room = (
  record { no_packets = refl; message = empty-IsMessage; no_bytes = refl; running = running },
  omega (arith, room),
)

-- Whatever a reader was doing, after a restart that has found the PSP again its loop asks for the
-- device once and then takes any number of frames whole: nothing of a frame that the restart cut
-- off is mixed into them, and nothing that waited for the PSP is written, and both queues of the
-- send thread, in which no other thread puts anything meanwhile, are empty at the end. The
-- conditions are that the reader's buffer and the receive thread's packets are well formed, that
-- the PSP answers the check and sends a packet in each pass, at least one, that the PSP sends
-- frames of 1 to 2304 bytes in full packets and a last one, none of them shorter than 12 bytes, so
-- that a last packet behind others carries 4 bytes of its frame or more, that restarts are left,
-- and that the receive thread runs and its queue can hold the packets.
pub psp_frames_after_restart :
    (codes : ErrorCodes) (r : Reader) (devices : Option (List Device)) (handle : ℕ)
    (events : ℕ → Events) {frames ws : List Bytes}
    → IsSafe r
    → (handle_error r devices).device_handle ≡ some handle
    → int_lt (add32 r.retry_counter 1) r.max_fatal_retries ≡ true
    → int_lt 0 r.max_fatal_retries ≡ true
    → r.receive_thread.stop_request ≡ false
    → 0 < length ws
    → length ws ≤ to_size r.receive_thread.max_buffer_size
    → PspStreams frames ws
    → Feeds events 0 ws
    → IsAnswered (events 0).check
    → (r' : Reader) × (t : ReceiveThread) × (run codes (length ws) (handle_error r devices) events 0
        ≡ ok (r', hello_of_check ∷ []))
      × IsReading r'
      × (r'.receive_stitching ≡ false)
      × (r'.send_thread.queue ≡ [])
      × (r'.send_thread.outgoing_queue ≡ [])
      × (ReceiveThread.run_passes (length ws) r'.receive_thread ≡ ok (t, frames))
      × (t.queue ≡ [])
psp_frames_after_restart codes r devices handle events {ws = []} s found left may running pos room
      sends feeds answered =
    absurd (omega arith)
psp_frames_after_restart codes r devices handle events {ws = w ∷ ws} s found left may running pos
      room sends feeds answered =
    let x = handle_error-Restarted r devices in
    let v = Restarted-IsReading s x found left may in
    let (i, has) = clear_queues-IsIdle r.receive_thread (length (w ∷ ws)) running room in
    let t₀ = (events 0).hello_write in
    let (r', reads, q) =
      read_all-Queued codes t₀ (checked (handle_error r devices)) sends v.opened x.stitching
        (rw x.thread has) in
    let (ran, v', same) =
      run-answered codes t₀ w ws (handle_error r devices) r' events 0 x.unchecked answered v
        x.nothing_to_send (PspStreams-AllAsync sends) feeds reads in
    let (t, passes, left) = run_passes-Queued (rw x.thread i) q in
    (
      r',
      t,
      ran,
      v',
      q.stitching,
      ap (λ s. s.queue) same ∙ x.nothing_to_cut,
      ap (λ s. s.outgoing_queue) same ∙ x.nothing_to_send,
      passes,
      left,
    )
