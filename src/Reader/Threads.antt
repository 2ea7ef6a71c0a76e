-- ===== src/Reader/Threads.antt =====
-- The passes of `USBReader`'s thread, and the flags of the two threads of its queues.
use cwusb.Base.{
  ℕ, zero, suc, ◌+◌, ◌≡◌, inl, inr, true, ◌||◌, List, Option, none, some, length, ok, ltb, get32,
  int_lt, ◌&&◌, add32, sub32, Result-cases, Bool-cases, arith,
}
use cwusb.SendThread
use cwusb.ReceiveThread
use cwusb.ReceiveThread.{ReceiveThread}
use cwusb.Usb.{StitchPacket}
use cwusb.Reader.State.{Reader}
use cwusb.Reader.Transfers.{
  Transfer, Write, usb_bulk_read, usb_bulk_write, send_packet, send_packets,
  handle_asynchronous_send,
}
use cwusb.Reader.Receive.{
  copy_packet, handle_first, handle_next, handle_asynchronous, handle_host_fs, dispatch,
  receive_callback,
}
use cwusb.Reader.Device.{Device, open_device, handle_close, handle_error}
use cwusb.Reader.Loop.{
  ErrorCodes, Events, check_device, recover, read_failed, read_packet, read_phase, write_phase,
  pass,
}

-- The queues' threads can be stopped.
pub record IsStoppable (r : Reader) : Type 0 where
  pub started : r.has_threads ≡ true
  pub send_done : r.send_thread.done ≡ true
  pub receive_runs : (r.receive_thread.running || r.receive_thread.done) ≡ true

add_to_queue_keeps :
    (t : ReceiveThread) (p : StitchPacket)
    → ((ReceiveThread.add_to_queue t p).0.running ≡ t.running)
      × ((ReceiveThread.add_to_queue t p).0.done ≡ t.done)
unfolding ReceiveThread.add_to_queue
add_to_queue_keeps t p = ground arith

handle_first-IsStoppable :
    (r : Reader) (n : ℕ) {r' : Reader} → IsStoppable r → handle_first r n ≡ ok r' → IsStoppable r'
unfolding handle_first
handle_first-IsStoppable r n s e =
    elim (Result-cases (
      copy_packet r.temporary_receive_buffer 24 n
        (ltb 488 (get32 r.temporary_receive_buffer 16)))) [
          | inr (f, fails) ↦ absurd (ground (arith, fails, e))
          | inl (p, copies) ↦ ground (arith, copies, e, s, add_to_queue_keeps r.receive_thread p)
        ]

handle_next-IsStoppable :
    (r : Reader) (n : ℕ) {r' : Reader} → IsStoppable r → handle_next r n ≡ ok r' → IsStoppable r'
unfolding handle_next
handle_next-IsStoppable r n s e =
    let total = add32 r.stitching_length (sub32 n 8) in
    elim (Result-cases
      (copy_packet r.temporary_receive_buffer 8 n (ltb 504 n && int_lt total r.actual_length))) [
        | inr (f, fails) ↦ absurd (ground (arith, fails, e))
        | inl (p, copies) ↦ ground (arith, copies, e, s, add_to_queue_keeps r.receive_thread p)
      ]

handle_asynchronous-IsStoppable :
    (r : Reader) (n : ℕ) {r' : Reader}
    → IsStoppable r
    → handle_asynchronous r n ≡ ok r'
    → IsStoppable r'
unfolding handle_asynchronous
handle_asynchronous-IsStoppable r n {r'} s e =
    ground (
      arith,
      e,
      s,
      handle_first-IsStoppable r n {r' = r'} s,
      handle_next-IsStoppable r n {r' = r'} s,
    )

handle_host_fs-IsStoppable :
    (r : Reader) (t : Transfer) → IsStoppable r → IsStoppable (handle_host_fs r t).0
unfolding handle_host_fs
handle_host_fs-IsStoppable r t s = ground (arith, s)

dispatch-IsStoppable :
    (r : Reader) (t : Transfer) {r' : Reader} {writes : List Write}
    → IsStoppable r
    → dispatch r t ≡ ok (r', writes)
    → IsStoppable r'
unfolding dispatch
dispatch-IsStoppable r t {r'} s e = elim (Result-cases (handle_asynchronous r r.length)) [
  | inl (r₁, handled) ↦ ground (
    arith,
    e,
    handled,
    s,
    handle_asynchronous-IsStoppable r r.length {r' = r₁} s handled,
    handle_host_fs-IsStoppable r t s,
  )
  | inr (f, fails) ↦ ground (arith, e, fails, s, handle_host_fs-IsStoppable r t s)
]

receive_callback-IsStoppable :
    (r : Reader) (t : Transfer) {r' : Reader} {writes : List Write}
    → IsStoppable r
    → receive_callback r t ≡ ok (r', writes)
    → IsStoppable r'
unfolding receive_callback
receive_callback-IsStoppable r t s e = elim (Result-cases (dispatch r t)) [
  | inl ((r₁, out), done) ↦ ground (arith, e, done, s, dispatch-IsStoppable r t {r' = r₁} s done)
  | inr (f, fails) ↦ ground (arith, e, fails, s)
]

usb_bulk_read-IsStoppable :
    (r : Reader) (t : Transfer) → IsStoppable r → IsStoppable (usb_bulk_read r t).0
unfolding usb_bulk_read
usb_bulk_read-IsStoppable r t s = ground (arith, s)

module _ (codes : ErrorCodes) where
  read_failed-IsStoppable :
      (r : Reader) (result : ℕ) → IsStoppable r → IsStoppable (read_failed codes r result)
  unfolding read_failed
  read_failed-IsStoppable r result s = ground (arith, s)

  read_packet-IsStoppable :
      (r : Reader) (t hello_write : Transfer) {r' : Reader} {writes : List Write}
      → IsStoppable r
      → read_packet codes r t hello_write ≡ ok (r', writes)
      → IsStoppable r'
  unfolding read_packet
  read_packet-IsStoppable r t hello_write {r'} {writes} s e =
      let s₁ = usb_bulk_read-IsStoppable r t s in
      let (r₁, result) = usb_bulk_read r t in
      let r₂ : Reader = record r₁ { length = result; retry_counter = 0 } in
      let s₂ : IsStoppable r₂ = record {
        started = s₁.started;
        send_done = s₁.send_done;
        receive_runs = s₁.receive_runs;
      } in
      elim (Bool-cases (int_lt 0 result)) [
        | inl got ↦
            receive_callback-IsStoppable r₂ hello_write {r' = r'} {writes = writes} s₂
              (ground (arith, got, e))
        | inr failed ↦ ground (arith, failed, e, read_failed-IsStoppable r₁ result s₁)
      ]

  read_phase-IsStoppable :
      (r : Reader) (e : Events) {r' : Reader} {writes : List Write}
      → IsStoppable r
      → read_phase codes r e ≡ ok (r', writes)
      → IsStoppable r'
  unfolding read_phase
  read_phase-IsStoppable r e {r'} {writes} s reads = ground (
    arith,
    reads,
    s,
    read_packet-IsStoppable r e.read e.hello_write {r' = r'} {writes = writes} s,
  )

handle_close-IsStoppable : (r : Reader) → IsStoppable r → IsStoppable (handle_close r).0
unfolding handle_close
handle_close-IsStoppable r s = ground (arith, s)

open_device-IsStoppable :
    (r : Reader) (devices : Option (List Device))
    → IsStoppable r
    → IsStoppable (open_device r devices).0
unfolding open_device
open_device-IsStoppable r none s = s
open_device-IsStoppable r (some devices) s = record {
  started = s.started;
  send_done = s.send_done;
  receive_runs = s.receive_runs;
}

handle_error-IsStoppable :
    (r : Reader) (devices : Option (List Device))
    → IsStoppable r
    → IsStoppable (handle_error r devices)
unfolding handle_error ReceiveThread.clear_queues SendThread.clear_queues
handle_error-IsStoppable r devices s =
    let s₁ = open_device-IsStoppable (handle_close r).0 devices (handle_close-IsStoppable r s) in
    record { started = s₁.started; send_done = s₁.send_done; receive_runs = s₁.receive_runs }

recover-IsStoppable :
    (r : Reader) (devices : Option (List Device)) → IsStoppable r → IsStoppable (recover r devices)
unfolding recover
recover-IsStoppable r devices s =
    ground (arith, s, handle_error-IsStoppable r devices s, handle_close-IsStoppable r s)

send_packet-IsStoppable :
    (r : Reader) (t : Transfer) → IsStoppable r → IsStoppable (send_packet r t).0
unfolding send_packet usb_bulk_write SendThread.pop_from_outgoing_queue
send_packet-IsStoppable r t s = ground (arith, s)

send_packets-IsStoppable :
    (n : ℕ) (outcome : ℕ → Transfer) (i : ℕ) (r : Reader)
    → IsStoppable r
    → IsStoppable (send_packets n outcome i r).0
unfolding send_packets
send_packets-IsStoppable zero outcome i r s = s
send_packets-IsStoppable (suc n) outcome i r s = ground (
  arith,
  s,
  send_packets-IsStoppable n outcome (i + 1) (send_packet r (outcome i)).0
      (send_packet-IsStoppable r (outcome i) s),
)

write_phase-IsStoppable :
    (r : Reader) (e : Events) → IsStoppable r → IsStoppable (write_phase r e).0
unfolding write_phase handle_asynchronous_send
write_phase-IsStoppable r e s =
    ground (arith, s, send_packets-IsStoppable (length r.send_thread.outgoing_queue) e.writes 0 r s)

check_device-IsStoppable :
    (r : Reader) (t : Transfer) → IsStoppable r → IsStoppable (check_device r t).0
unfolding check_device
check_device-IsStoppable r t s = ground (arith, s)

-- Whatever happens in a pass, it leaves the two threads as they are.
pub pass-IsStoppable :
    (codes : ErrorCodes) (r : Reader) (e : Events) {r' : Reader} {writes : List Write}
    → IsStoppable r
    → pass codes r e ≡ ok (r', writes)
    → IsStoppable r'
unfolding pass
pass-IsStoppable codes r e s passes = elim (Bool-cases r.stop_request) [
  | inl stops ↦ ground (arith, stops, passes, handle_close-IsStoppable r s)
  | inr going ↦
      let (r₁, checks) = check_device r e.check in
      let s₁ : IsStoppable (recover r₁ e.devices) =
        recover-IsStoppable r₁ e.devices (check_device-IsStoppable r e.check s) in
      elim (Result-cases (read_phase codes (recover r₁ e.devices) e)) [
        | inr (f, fails) ↦ absurd (ground (arith, going, passes, fails))
        | inl ((r₂, out), reads) ↦ ground (
          arith,
          going,
          passes,
          reads,
          write_phase-IsStoppable r₂ e
              (read_phase-IsStoppable codes (recover r₁ e.devices) e {r' = r₂} s₁ reads),
        )
      ]
]
