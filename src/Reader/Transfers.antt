-- ===== src/Reader/Transfers.antt =====
-- The bulk transfers of `USBReader`, and what it writes to the PSP. What libusb does in a transfer
-- is a value of the environment.
use cwusb.Base.{
  ℕ, suc, zero, ◌+◌, Bool, true, false, not, ◌&&◌, List, [], ◌∷◌, ◌++◌, none, some, Bytes, length,
  take, drop, le32, add32, int_lt, minus_one, ◌==◌, if◌then◌else◌,
}
use cwusb.Usb.{host_fs, hello, host_fs_command}
use cwusb.SendThread.{has_outgoing_data, pop_from_outgoing_queue}
use cwusb.Reader.State.{Reader}

-- What one `libusb_bulk_transfer` returns, the count that it stores, and the bytes that a read
-- stores at the start of the buffer.
pub record Transfer : Type 0 where
  pub error : ℕ
  pub transferred : ℕ
  pub bytes : Bytes

-- A write that the program asks for: the endpoint and the bytes.
abbrev pub Write : Type 0
Write = ℕ × Bytes

abbrev pub usb_data_read_endpoint : ℕ
usb_data_read_endpoint = 0x81

abbrev pub usb_data_write_endpoint : ℕ
usb_data_write_endpoint = 0x3

abbrev pub usb_hello_endpoint : ℕ
usb_hello_endpoint = 0x2

unfoldable pub usb_bulk_read : Reader → Transfer → Reader × ℕ
usb_bulk_read r t = elim r.device_handle [
  | none ↦ (r, minus_one)
  | some handle ↦ (
    record r {
      temporary_receive_buffer = t.bytes ++ drop (length t.bytes) r.temporary_receive_buffer;
    },
    if t.error == 0 then t.transferred else t.error,
  )
]

unfoldable pub usb_bulk_write : Reader → ℕ → Bytes → Transfer → ℕ × List Write
usb_bulk_write r endpoint bytes t = elim r.device_handle [
  | none ↦ (minus_one, [])
  | some handle ↦ (if int_lt t.error 0 then minus_one else t.transferred, (endpoint, bytes) ∷ [])
]

unfoldable pub usb_check_device : Reader → Transfer → Bool × List Write
usb_check_device r t = elim r.device_handle [
  | none ↦ (true, [])
  | some handle ↦
      let (count, writes) = usb_bulk_write r usb_hello_endpoint (le32 host_fs) t in
      (count == 4, writes)
]

unfoldable pub send_hello : Reader → Transfer → ℕ × List Write
send_hello r t = usb_bulk_write r usb_hello_endpoint (host_fs_command host_fs hello 0) t

-- One round of `HandleAsynchronousSend`: the front packet is popped, and lost if the write fails. The
-- length of a packet that the send thread has made is at most the 512 bytes of its array
-- (`Carries` of SendThread.Cutting), so `take` gives as many bytes as libusb is told to write.
unfoldable pub send_packet : Reader → Transfer → Reader × List Write
send_packet r t =
    let (thread, p) = pop_from_outgoing_queue r.send_thread in
    let r₁ : Reader = record r { send_thread = thread; send_stitching = p.stitch } in
    let (result, writes) = usb_bulk_write r₁ usb_data_write_endpoint (take p.length p.bytes) t in
    if result == minus_one
    then (let count = add32 r.read_write_retry_counter 1 in
        (
          record r₁ {
            read_write_retry_counter = count;
            error = if int_lt r.max_read_write_retries count then true else r.error;
          },
          writes,
        ))
    else (r₁, writes)

-- The loop of `HandleAsynchronousSend`: at most `n` rounds, the outcome of each from the list's
-- next place on. The queue's length is enough rounds.
unfoldable pub send_packets : ℕ → (ℕ → Transfer) → ℕ → Reader → Reader × List Write
send_packets zero outcome i r = (r, [])
send_packets (suc n) outcome i r = elim (not r.stop_request && has_outgoing_data r.send_thread) [
  | true ↦
      let (r₁, writes) = send_packet r (outcome i) in
      let (r₂, more) = send_packets n outcome (i + 1) r₁ in (r₂, writes ++ more)
  | false ↦ (r, [])
]

unfoldable pub handle_asynchronous_send : (ℕ → Transfer) → Reader → Reader × List Write
handle_asynchronous_send outcome r = send_packets (length r.send_thread.outgoing_queue) outcome 0 r
