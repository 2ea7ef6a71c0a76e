-- ===== src/XLinkKai/Receive/Ethernet.antt =====
-- `XLinkKaiConnection::ReceiveCallback` on a datagram with a frame.
use cwusb.Base.{ℕ, ◌≡◌, Bool, true, [], ◌∷◌, ◌++◌, Bytes, equal, ok, arith}
use cwusb.XLinkKai.Protocol.{ethernet_data_string}
use cwusb.XLinkKai.Connection.{Addresses, Connection, to_usb}
use cwusb.XLinkKai.Receive.{
  handle_ethernet, confirm, handle_command, handle_datagram, receive_callback,
  start_receiver_thread,
}

module _ {a : Addresses} where
  -- The state after a frame.
  abbrev pub after_frame : Connection a → ℕ → Bytes → Connection a
  after_frame c now frame =
      (start_receiver_thread (record c { keep_alive_timer_start = now; ethernet_data = frame })).0

  pub receive_callback-frame :
      (c : Connection a) (now : ℕ) (frame : Bytes) (fails : Bool)
      → c.connected ≡ true
      → c.incoming_connection ≡ true
      → receive_callback c now (ethernet_data_string ++ frame) fails
        ≡ ok (after_frame c now frame, to_usb frame ∷ [])
  unfolding receive_callback handle_datagram confirm handle_command handle_ethernet equal
  receive_callback-frame c now frame fails on incoming = ground arith
