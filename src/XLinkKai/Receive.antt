-- ===== src/XLinkKai/Receive.antt =====
-- `XLinkKaiConnection::ReceiveCallback` on the bytes of one datagram.
pub mod Exceptions
pub mod Ethernet
use cwusb.Base.{
  ℕ, ◌+◌, Bool, true, false, not, ◌&&◌, List, [], ◌∷◌, ◌++◌, Option, none, some, Bytes, equal,
  length, take, drop, find, substr, substr_from, Result, ok, err, ◌>>=◌, if◌then◌else◌,
}
use cwusb.XLinkKai.Protocol.{
  connected_command, connected_string, disconnected_command, disconnected_string,
  ethernet_data_command, ethernet_data_string, ethernet_data_meta_string, keep_alive_string,
  set_essid_format, set_essid_string,
}
use cwusb.XLinkKai.Connection.{Addresses, Connection, Output, to_usb, handle_keep_alive}

-- `lData.substr(0, lFirstSeparator + 1)`: `npos + 1` is 0.
abbrev pub command_of : Bytes → Bytes
command_of received = elim (find b';' received) [ none ↦ [] | some i ↦ take (i + 1) received ]

module _ {a : Addresses} where
  -- While not connected, a confirmation: the connection and the command after the test.
  unfoldable pub confirm : Connection a → Bytes → Connection a × Bytes
  confirm c received =
      let command = command_of received in
      if not c.connected && equal command connected_command
      then (let answer = take (length connected_string) received in
          (
            if equal answer connected_string
                then record c { connect_initiated = false; connected = true }
                else c,
            answer,
          ))
      else (c, command)

  -- The settings of the engine, which are only logged: the texts taken for the log may throw.
  unfoldable pub handle_meta : Connection a → Bytes → Result (Connection a × List (Output a))
  handle_meta c received =
      substr (length ethernet_data_meta_string) (length set_essid_format) received >>= λ format.
      if equal format set_essid_format
      then (substr_from (length set_essid_string) received >>= λ essid. ok (c, []))
      else ok (c, [])

  -- A datagram that starts with `e;`. Its text behind four bytes is taken for the log first.
  unfoldable pub handle_ethernet : Connection a → Bytes → Result (Connection a × List (Output a))
  handle_ethernet c received = substr_from (length ethernet_data_string) received >>= λ frame.
      if equal (take (length ethernet_data_string) received) ethernet_data_string
      then (if c.incoming_connection
          then ok (record c { ethernet_data = frame }, to_usb frame ∷ [])
          else ok (c, []))
      else if equal (take (length ethernet_data_string) received) ethernet_data_meta_string
      then handle_meta c received
      else ok (c, [])

  unfoldable pub handle_disconnected : Connection a → Bytes → Connection a
  handle_disconnected c received =
      if equal (take (length disconnected_string) received) disconnected_string
      then record c { connected = false }
      else c

  -- `fails` says whether the socket throws, should an answer be sent.
  unfoldable pub handle_command :
      Connection a → Bytes → Bytes → Bool → Result (Connection a × List (Output a))
  handle_command c command received fails =
      if equal command keep_alive_string
      then (let (c', _sent, out) = handle_keep_alive c fails in ok (c', out))
      else if equal command ethernet_data_command
      then handle_ethernet c received
      else if equal command disconnected_command
      then ok (handle_disconnected c received, [])
      else ok (c, [])

  -- `StartReceiverThread`: the thread runs from the first call on an open socket on.
  unfoldable pub start_receiver_thread : Connection a → Connection a × Bool
  start_receiver_thread c =
      if c.is_open then (record c { receiver_thread = true }, true) else (c, false)

  unfoldable pub handle_datagram :
      Connection a → ℕ → Bytes → Bool → Result (Connection a × List (Output a))
  handle_datagram c now received fails =
      let (c', command) = confirm (record c { keep_alive_timer_start = now }) received in
      if c'.connected then handle_command c' command received fails else ok (c', [])

  unfoldable pub receive_callback :
      Connection a → ℕ → Bytes → Bool → Result (Connection a × List (Output a))
  receive_callback c now received fails =
      (if equal received [] then ok (c, []) else handle_datagram c now received fails)
      >>= λ (c', out). ok ((start_receiver_thread c').0, out)

  -- `ReadNextData`: the bytes that the socket has received and their sender.
  unfoldable pub read_next_data :
      Connection a
      → ℕ
      → Bytes
      → a.Address × ℕ
      → Bool
      → Result (Connection a × Bool × List (Output a))
  read_next_data c now received sender fails =
      let c₁ : Connection a = record c { remote = sender } in
      (if equal received [] then ok (c₁, []) else receive_callback c₁ now received fails)
      >>= λ (c', out). ok (c', true, out)
