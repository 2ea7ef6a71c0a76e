-- ===== src/Bridge/FromPsp.antt =====
-- From the PSP to XLink Kai: `USBReader`, `USBReceiveThread`, `XLinkKaiConnection::Send`.
use cwusb.Base.{
  ℕ, ◌+◌, Bool, ◌≤◌, ◌≡◌, true, false, List, [], ◌∷◌, ◌++◌, append-nil, Bytes, length, ok, arith,
}
use cwusb.Usb.{max_asynchronous_buffer}
use cwusb.ReceiveThread
use cwusb.ReceiveThread.{ReceiveThread}
use cwusb.Reader.State.{Reader}
use cwusb.Reader.Transfers.{Transfer}
use cwusb.Reader.Loop.{ErrorCodes}
use cwusb.Reader.Fields.{psp_first}
use cwusb.Reader.Delivery.{IsOpen}
use cwusb.Reader.Reads.{HasRoom, read_all}
use cwusb.Reader.Stream.{PspStream}
use cwusb.Bridge.Frames.{
  PspStreams, no_frames, next_frame, IsIdle, read_all-Queued, run_passes-Queued,
}
use cwusb.XLinkKai.Protocol.{ethernet_data_string}
use cwusb.XLinkKai.Connection.{Addresses, Connection, Output, datagram, send, send_data}

-- The receive thread hands its messages to the connection one by one; `fails` says for which of them,
-- from the place `i` on, the socket throws.
unfoldable pub send_all :
    {a : Addresses} → (ℕ → Bool) → ℕ → Connection a → List Bytes → Connection a × List (Output a)
send_all fails i c [] = (c, [])
send_all fails i c (frame ∷ frames) =
    let (c₁, sent, out) = send_data c frame (fails i) in
    let (c', others) = send_all fails (i + 1) c₁ frames in (c', out ++ others)

abbrev pub ethernet_datagram : {a : Addresses} → a.Address × ℕ → Bytes → Output a
ethernet_datagram to frame = datagram to (ethernet_data_string ++ frame)

module _ {a : Addresses} (c : Connection a) (up : c.connected ≡ true)
    (opened : c.is_open ≡ true) where
  pub send_data-up :
      (frame : Bytes) → send_data c frame false ≡ (c, true, ethernet_datagram c.remote frame ∷ [])
  unfolding send_data send
  send_data-up frame = ground (arith, up, opened)

-- A frame of 1 to 2304 bytes that the PSP sends in full packets and a last one, none shorter than
-- 12 bytes, to a reader and a receive thread that are between two frames and have room, leaves for
-- XLink Kai as one datagram `e;e;` with exactly the bytes of the frame, if the connection is up
-- and the socket takes it.
pub psp_frame_reaches_xlink_kai :
    {a : Addresses} (codes : ErrorCodes) (hello_write : Transfer) (c : Connection a) (r : Reader)
    {frame : Bytes} {ws : List Bytes}
    → PspStream (psp_first (length frame)) frame ws
    → length frame ≤ max_asynchronous_buffer
    → IsOpen r
    → r.receive_stitching ≡ false
    → IsIdle r.receive_thread
    → HasRoom r.receive_thread (length ws)
    → c.connected ≡ true
    → c.is_open ≡ true
    → (r' : Reader) × (n : ℕ) × (t : ReceiveThread) × (read_all codes hello_write ws r ≡ ok r')
      × (r'.receive_stitching ≡ false)
      × (ReceiveThread.run_passes n r'.receive_thread ≡ ok (t, frame ∷ []))
      × (send_data c frame false ≡ (c, true, ethernet_datagram c.remote frame ∷ []))
psp_frame_reaches_xlink_kai codes hello_write c r {frame} {ws} stream fits o off i room up opened =
    let sends : PspStreams (frame ∷ []) ws =
      rw (append-nil ws) at (next_frame stream fits no_frames) in
    let (r', reads, q) = read_all-Queued codes hello_write r sends o off room in
    let (t, passes, _) = run_passes-Queued i q in
    (r', length ws, t, reads, q.stitching, passes, send_data-up c up opened frame)
