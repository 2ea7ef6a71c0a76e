-- ===== src/XLinkKai/Loop.antt =====
-- The receiver thread of `XLinkKaiConnection::StartReceiverThread`.
pub mod Safety
pub mod Silence
pub mod Recovery
pub mod Unanswered
pub mod Remote
pub mod Alive
use cwusb.Base.{
  ℕ, zero, suc, ◌+◌, Bool, true, false, not, ◌&&◌, List, [], ◌∷◌, ◌++◌, Option, none, some, Bytes,
  ltb, Result, ok, err, ◌>>=◌, if◌then◌else◌,
}
use cwusb.XLinkKai.Protocol.{connection_timeout, keep_alive_timeout, setting_dds_only_string}
use cwusb.XLinkKai.Connection.{Addresses, Connection, Output, open_socket, send, connect, close}
use cwusb.XLinkKai.Receive.{receive_callback}

-- A datagram that the callback is run for: its bytes and its sender, the time, and whether sending an
-- answer fails.
pub record Heard (a : Addresses) : Type 0 where
  pub bytes : Bytes
  pub sender : a.Address × ℕ
  pub now : ℕ
  pub send_fails : Bool

-- What the surroundings do in one pass: the time, whether sending and opening fail, and the datagrams
-- that wait at the socket, one for each callback that `poll` runs.
pub record Events (a : Addresses) : Type 0 where
  pub now : ℕ
  pub send_fails : Bool
  pub open_fails : Bool
  pub received : List (Heard a)

module _ {a : Addresses} where
  abbrev pub connection_timed_out : Connection a → ℕ → Bool
  connection_timed_out c now = ltb (c.connection_timer_start + connection_timeout) now

  abbrev pub keep_alive_timed_out : Connection a → ℕ → Bool
  keep_alive_timed_out c now = ltb (c.keep_alive_timer_start + keep_alive_timeout) now

  -- Lost connection somewhere: close, open and connect again.
  unfoldable pub reconnect : Connection a → Events a → Result (Connection a × List (Output a))
  reconnect c e =
      let (c₁, goodbye) = close c false e.send_fails in
      open_socket c₁ c₁.ip c₁.port e.open_fails >>= λ (c₂, opened).
      let (c₃, sent, out) = connect c₂ e.now e.send_fails in ok (c₃, goodbye ++ out)

  abbrev pub reset : Connection a → Connection a
  reset c = record c { connect_initiated = false; connected = false; settings_sent = false }

  unfoldable pub send_settings : Connection a → Events a → Connection a × List (Output a)
  send_settings c e =
      let (c', _sent, out) = send c setting_dds_only_string [] e.send_fails in
      (record c' { settings_sent = true }, out)

  -- The callbacks for the datagrams, one after the other. The receive has stored the sender.
  unfoldable pub receive_waiting :
      Connection a → List (Heard a) → Result (Connection a × List (Output a))
  receive_waiting c [] = ok (c, [])
  receive_waiting c (h ∷ hs) =
      receive_callback (record c { remote = h.sender }) h.now h.bytes h.send_fails >>= λ (c', out).
      receive_waiting c' hs >>= λ (c'', more). ok (c'', out ++ more)

  unfoldable pub poll : Connection a → Events a → Result (Connection a × List (Output a))
  poll c e = receive_waiting c e.received

  -- One pass of the loop.
  unfoldable pub pass : Connection a → Events a → Result (Connection a × List (Output a))
  pass c e =
      if not c.connected && not c.connect_initiated
      then reconnect c e
      else if not c.connected && (c.connect_initiated && connection_timed_out c e.now)
      then ok (reset c, [])
      else if c.connected && (not c.connect_initiated && keep_alive_timed_out c e.now)
      then ok (reset c, [])
      else if c.connected && (not c.connect_initiated && not c.settings_sent)
      then ok (send_settings c e)
      else poll c e

  -- The loop, for the passes that the thread gets to make.
  unfoldable pub run : Connection a → List (Events a) → Result (Connection a × List (Output a))
  run c [] = ok (c, [])
  run c (e ∷ es) = pass c e >>= λ (c', out). run c' es >>= λ (c'', more). ok (c'', out ++ more)
