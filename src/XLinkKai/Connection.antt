-- ===== src/XLinkKai/Connection.antt =====
-- The members of `XLinkKaiConnection`, and the methods that open, use and close its socket.
use cwusb.Base.{
  ℕ, ◌%◌, ◌^◌, Bool, true, false, ◌||◌, List, [], ◌∷◌, ◌++◌, Option, none, some, Bytes, equal,
  Result, ok, err, bad_address, if◌then◌else◌,
}
use cwusb.XLinkKai.Protocol.{
  default_ip, default_port, connect_string, disconnect_string, ethernet_data_string,
  keep_alive_string,
}

-- Boost's parsing of an address, its result kept abstract.
pub record Addresses : Type 1 where
  pub Address : Type 0
  pub from_string : Bytes → Option Address
  pub unset : Address

-- `is_open` is that of the socket, `receiver_thread` and `incoming_connection` say whether the
-- pointers are set. The buffer `mData` is an argument of the callback.
pub record Connection (a : Addresses) : Type 0 where
  pub connected : Bool
  pub connect_initiated : Bool
  pub settings_sent : Bool
  pub connection_timer_start : ℕ
  pub keep_alive_timer_start : ℕ
  pub ethernet_data : Bytes
  pub incoming_connection : Bool
  pub ip : Bytes
  pub port : ℕ
  pub hosting : Bool
  pub use_host_ssid : Bool
  pub receiver_thread : Bool
  pub remote : a.Address × ℕ
  pub is_open : Bool

-- What the connection does to its surroundings: a datagram with the endpoint that it is sent to, or a
-- frame that is handed to the USB side.
pub data Output (a : Addresses) : Type 0 where
  datagram : a.Address × ℕ → Bytes → Output a
  to_usb : Bytes → Output a

module _ (a : Addresses) where
  unfoldable pub initial : Connection a
  initial = record {
    connected = false;
    connect_initiated = false;
    settings_sent = false;
    connection_timer_start = 0;
    keep_alive_timer_start = 0;
    ethernet_data = [];
    incoming_connection = false;
    ip = default_ip;
    port = default_port;
    hosting = false;
    use_host_ssid = false;
    receiver_thread = false;
    remote = (a.unset, 0);
    is_open = false;
  }

module _ {a : Addresses} where
  -- `Open(aIp, aPort)`; `fails` says whether opening the socket throws. An address that cannot be
  -- parsed throws out of the method.
  unfoldable pub open_socket : Connection a → Bytes → ℕ → Bool → Result (Connection a × Bool)
  open_socket c ip port fails =
      let use_default = equal ip [] in
      elim (a.from_string (if use_default then default_ip else ip)) [
        | none ↦ err bad_address
        | some address ↦
            let remote : a.Address × ℕ =
              (address, (if use_default then default_port else port) % 2 ^ 16) in
            ok (
              if fails
              then (record c { remote = remote }, false)
              else (record c { remote = remote; ip = ip; port = port; is_open = true }, true))
      ]

  -- `Open(aArgument)`
  unfoldable pub open_default : Connection a → Bytes → Bool → Result (Connection a × Bool)
  open_default c argument fails = open_socket c argument default_port fails

  -- `Send(aCommand, aData)`; `fails` says whether the socket throws.
  unfoldable pub send : Connection a → Bytes → Bytes → Bool → Connection a × Bool × List (Output a)
  send c command bytes fails =
      if c.is_open
      then (if c.connected || (equal command connect_string || equal command disconnect_string)
          then (if fails
              then (c, false, [])
              else (c, true, datagram c.remote (command ++ bytes) ∷ []))
          else (c, false, []))
      else (record c { connected = false }, false, [])

  -- `Send(aData)`
  unfoldable pub send_data : Connection a → Bytes → Bool → Connection a × Bool × List (Output a)
  send_data c bytes fails = send c ethernet_data_string bytes fails

  unfoldable pub connect : Connection a → ℕ → Bool → Connection a × Bool × List (Output a)
  connect c now fails =
      let (c', sent, out) = send c connect_string [] fails in
      if sent
      then (record c' { connect_initiated = true; connection_timer_start = now }, true, out)
      else (c', false, out)

  unfoldable pub handle_keep_alive : Connection a → Bool → Connection a × Bool × List (Output a)
  handle_keep_alive c fails = send c keep_alive_string [] fails

  unfoldable pub say_goodbye : Connection a → Bool → Connection a × List (Output a)
  say_goodbye c fails =
      if c.connected || c.connect_initiated
      then (let (c', _sent, out) = send c disconnect_string [] fails in
          (record c' { connected = false; connect_initiated = false }, out))
      else (c, [])

  -- `Close(aKillThread)`; the socket's own `close` is taken not to throw.
  unfoldable pub close : Connection a → Bool → Bool → Connection a × List (Output a)
  close c kill_thread fails =
      let (c', out) = say_goodbye c fails in
      (
        record c' {
          receiver_thread = if kill_thread then false else c'.receiver_thread;
          is_open = false;
        },
        out,
      )

  -- `Close()`, also that of the destructor.
  unfoldable pub close_all : Connection a → Bool → Connection a × List (Output a)
  close_all c fails = close c true fails

  unfoldable pub set_incoming_connection : Connection a → Connection a
  set_incoming_connection c = record c { incoming_connection = true }

  unfoldable pub set_port : Connection a → ℕ → Connection a
  set_port c port = record c { port = port }

  unfoldable pub set_hosting : Connection a → Bool → Connection a
  set_hosting c hosting = record c { hosting = hosting }

  unfoldable pub set_use_host_ssid : Connection a → Bool → Connection a
  set_use_host_ssid c use_host_ssid = record c { use_host_ssid = use_host_ssid }
