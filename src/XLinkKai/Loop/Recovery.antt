-- ===== src/XLinkKai/Loop/Recovery.antt =====
-- The thread of `XLinkKaiConnection` when the engine goes silent or disconnects.
use cwusb.Base.{
  ℕ, ◌+◌, ◌%◌, ◌^◌, equal_refl, ◌≤◌, ◌≡◌, refl, ap₂, ◌∙◌, true, false, List, [], ◌∷◌, ◌++◌, some,
  equal, ok, if◌then◌else◌, arith,
}
use cwusb.XLinkKai.Protocol.{
  default_ip, default_port, connect_string, connected_string, disconnected_string,
  connection_timeout,
}
use cwusb.XLinkKai.Connection.{
  Addresses, Connection, Output, datagram, open_socket, send, connect, say_goodbye, close,
}
use cwusb.XLinkKai.Receive.{
  handle_command, handle_disconnected, confirm, handle_datagram, receive_callback,
  start_receiver_thread,
}
use cwusb.XLinkKai.Loop.{
  Heard, Events, keep_alive_timed_out, reset, reconnect, receive_waiting, poll, pass, run,
}

module _ {a : Addresses} where
  -- The address that `Open` is given again can be parsed.
  abbrev pub Resolves : Connection a → a.Address → Type 0
  Resolves c address = a.from_string (if equal c.ip [] then default_ip else c.ip) ≡ some address

  -- Where `Open` points the connection.
  abbrev pub engine : Connection a → a.Address → a.Address × ℕ
  engine c address = (address, (if equal c.ip [] then default_port else c.port) % 2 ^ 16)

  -- What a connection looks like that has just asked the engine for a connection.
  pub record IsAsking (c : Connection a) (now : ℕ) : Type 0 where
    pub down : c.connected ≡ false
    pub asking : c.connect_initiated ≡ true
    pub opened : c.is_open ≡ true
    pub since : c.connection_timer_start ≡ now

  asking_again : Connection a → ℕ → a.Address → Connection a
  asking_again c now address = record c {
    connect_initiated = true;
    connection_timer_start = now;
    remote = engine c address;
    is_open = true;
  }

  pub reconnect-IsAsking :
      (c : Connection a) (e : Events a) (address : a.Address)
      → c.connected ≡ false
      → c.connect_initiated ≡ false
      → Resolves c address
      → e.send_fails ≡ false
      → e.open_fails ≡ false
      → (c' : Connection a) × (pass c e ≡ ok (c', datagram (engine c address) connect_string ∷ []))
        × IsAsking c' e.now
        × (c'.settings_sent ≡ c.settings_sent)
  unfolding pass reconnect close say_goodbye open_socket connect send asking_again
  reconnect-IsAsking c e address off idle resolves sends opens =
      (asking_again c e.now address, ground (arith, equal_refl connect_string), ground arith, refl)

  pass-timeout :
      (c : Connection a) (e : Events a)
      → c.connected ≡ true
      → c.connect_initiated ≡ false
      → keep_alive_timed_out c e.now ≡ true
      → pass c e ≡ ok (reset c, [])
  unfolding pass
  pass-timeout c e on idle silent = ground arith

  pub run_two :
      (c c₁ c₂ : Connection a) (e₁ e₂ : Events a) (out₁ out₂ : List (Output a))
      → pass c e₁ ≡ ok (c₁, out₁)
      → pass c₁ e₂ ≡ ok (c₂, out₂)
      → run c (e₁ ∷ e₂ ∷ []) ≡ ok (c₂, out₁ ++ (out₂ ++ []))
  unfolding run
  run_two c c₁ c₂ e₁ e₂ out₁ out₂ h k = rw (h, k)

  -- When the engine has sent nothing for more than 60 seconds, the next two passes give the
  -- connection up and ask for a new one, if the address can be parsed and the socket does not
  -- fail: all that is sent is one request to connect, to the address and port that `Open` was
  -- given.
  pub run_silent_engine :
      (c : Connection a) (e₁ e₂ : Events a) (address : a.Address)
      → c.connected ≡ true
      → c.connect_initiated ≡ false
      → keep_alive_timed_out c e₁.now ≡ true
      → Resolves c address
      → e₂.send_fails ≡ false
      → e₂.open_fails ≡ false
      → (c' : Connection a) × (run c (e₁ ∷ e₂ ∷ [])
          ≡ ok (c', datagram (engine c address) connect_string ∷ []))
        × IsAsking c' e₂.now
        × (c'.settings_sent ≡ false)
  run_silent_engine c e₁ e₂ address on idle silent resolves sends opens =
      let (c', asked, is_asking, settings) =
        reconnect-IsAsking (reset c) e₂ address refl refl resolves sends opens in
      (
        c',
        run_two c (reset c) c' e₁ e₂ [] (datagram (engine c address) connect_string ∷ [])
            (pass-timeout c e₁ on idle silent) asked,
        is_asking,
        settings,
      )

  -- The engine takes the connection down: only that is noted.
  pass-disconnected :
      (c : Connection a) (e : Events a) (h : Heard a)
      → c.connected ≡ true
      → c.connect_initiated ≡ false
      → c.settings_sent ≡ true
      → keep_alive_timed_out c e.now ≡ false
      → e.received ≡ h ∷ []
      → h.bytes ≡ disconnected_string
      → (c' : Connection a) × (pass c e ≡ ok (c', []))
        × (c'.connected ≡ false)
        × (c'.connect_initiated ≡ false)
        × (c'.settings_sent ≡ true)
        × (c'.ip ≡ c.ip)
        × (c'.port ≡ c.port)
  unfolding pass poll receive_waiting receive_callback handle_datagram confirm handle_command
      handle_disconnected start_receiver_thread equal
  pass-disconnected c e h on idle sent heard got gone =
      let c' : Connection a =
        (start_receiver_thread
          (record c { remote = h.sender; keep_alive_timer_start = h.now; connected = false })).0 in
      (c', ground arith, ground arith, ground arith, ground arith, ground arith, ground arith)

  -- The engine confirms in time.
  pass-connected :
      (c : Connection a) (e : Events a) (h : Heard a) {asked : ℕ}
      → IsAsking c asked
      → e.now ≤ asked + connection_timeout
      → e.received ≡ h ∷ []
      → h.bytes ≡ connected_string
      → (c' : Connection a) × (pass c e ≡ ok (c', []))
        × (c'.connected ≡ true)
        × (c'.connect_initiated ≡ false)
        × (c'.settings_sent ≡ c.settings_sent)
  unfolding pass poll receive_waiting receive_callback handle_datagram confirm handle_command
      start_receiver_thread equal
  pass-connected c e h asking in_time got back =
      let c' : Connection a = record c {
        remote = h.sender;
        keep_alive_timer_start = h.now;
        connected = true;
        connect_initiated = false;
        receiver_thread = true;
      } in
      (
        c',
        ground (arith, asking.down, asking.asking, asking.opened, asking.since),
        refl,
        refl,
        refl,
      )

  run_three :
      (c c₁ c₂ c₃ : Connection a) (e₁ e₂ e₃ : Events a) (out₁ out₂ out₃ : List (Output a))
      → pass c e₁ ≡ ok (c₁, out₁)
      → pass c₁ e₂ ≡ ok (c₂, out₂)
      → pass c₂ e₃ ≡ ok (c₃, out₃)
      → run c (e₁ ∷ e₂ ∷ e₃ ∷ []) ≡ ok (c₃, out₁ ++ (out₂ ++ (out₃ ++ [])))
  unfolding run
  run_three c c₁ c₂ c₃ e₁ e₂ e₃ out₁ out₂ out₃ h k l = rw (h, k, l)

  -- When the engine disconnects a connection whose settings have been sent and confirms it again
  -- in time after the request to connect, with one datagram for the poll each time, an address
  -- that can be parsed and a socket that does not fail, the settings still count as sent: the
  -- engine, which has a new connection, is only sent the request, at the address and port that
  -- `Open` was given.
  pub run_disconnected_engine :
      (c : Connection a) (e₁ e₂ e₃ : Events a) (h₁ h₃ : Heard a) (address : a.Address)
      → c.connected ≡ true
      → c.connect_initiated ≡ false
      → c.settings_sent ≡ true
      → keep_alive_timed_out c e₁.now ≡ false
      → e₁.received ≡ h₁ ∷ []
      → h₁.bytes ≡ disconnected_string
      → Resolves c address
      → e₂.send_fails ≡ false
      → e₂.open_fails ≡ false
      → e₃.now ≤ e₂.now + connection_timeout
      → e₃.received ≡ h₃ ∷ []
      → h₃.bytes ≡ connected_string
      → (c' : Connection a) × (run c (e₁ ∷ e₂ ∷ e₃ ∷ [])
          ≡ ok (c', datagram (engine c address) connect_string ∷ []))
        × (c'.connected ≡ true)
        × (c'.settings_sent ≡ true)
  run_disconnected_engine c e₁ e₂ e₃ h₁ h₃ address on idle sent heard got₁ gone resolves sends opens
        in_time got₃ back =
      let (c₁, first, down, idle₁, sent₁, ip₁, port₁) =
        pass-disconnected c e₁ h₁ on idle sent heard got₁ gone in
      let (c₂, second, asking, sent₂) =
        reconnect-IsAsking c₁ e₂ address down idle₁ (rw ip₁ resolves) sends opens in
      let (c₃, third, up, _, sent₃) = pass-connected c₂ e₃ h₃ asking in_time got₃ back in
      (
        c₃,
        run_three c c₁ c₂ c₃ e₁ e₂ e₃ [] (datagram (engine c₁ address) connect_string ∷ []) [] first
              second third
            ∙ ap₂
                (λ ip port. ok (
                  c₃,
                  datagram (address, (if equal ip [] then default_port else port) % 2 ^ 16)
                        connect_string
                      ∷ [],
                ))
                ip₁ port₁,
        up,
        sent₃ ∙ sent₂ ∙ sent₁,
      )
