-- ===== src/XLinkKai/Loop/Remote.antt =====
-- The endpoint that `XLinkKaiConnection` sends to.
use cwusb.Base.{
  ℕ, ◌≡◌, sym, ap, ◌∙◌, inl, inr, Bool, true, false, List, [], ◌∷◌, ◌++◌, Bytes, Result-cases, ok,
  arith,
}
use cwusb.XLinkKai.Connection.{
  Addresses, Connection, Output, datagram, handle_keep_alive, send, send_data,
}
use cwusb.XLinkKai.Protocol.{ethernet_data_string}
use cwusb.XLinkKai.Receive.{
  handle_ethernet, handle_meta, handle_disconnected, handle_command, confirm, handle_datagram,
  receive_callback, start_receiver_thread,
}
use cwusb.XLinkKai.Loop.{Heard, Events, receive_waiting, poll}

module _ {a : Addresses} where
  handle_ethernet-remote :
      (c c' : Connection a) (received : Bytes) (out : List (Output a))
      → handle_ethernet c received ≡ ok (c', out)
      → c'.remote ≡ c.remote
  unfolding handle_ethernet handle_meta
  handle_ethernet-remote c c' received out h = ground arith

  handle_command-remote :
      (c c' : Connection a) (command received : Bytes) (fails : Bool) (out : List (Output a))
      → handle_command c command received fails ≡ ok (c', out)
      → c'.remote ≡ c.remote
  unfolding handle_command handle_disconnected handle_keep_alive send
  handle_command-remote c c' command received fails out h =
      ground (arith, handle_ethernet-remote c c' received out)

  confirm-remote : (c : Connection a) (received : Bytes) → (confirm c received).0.remote ≡ c.remote
  unfolding confirm
  confirm-remote c received = ground arith

  handle_datagram-remote :
      (c c' : Connection a) (now : ℕ) (received : Bytes) (fails : Bool) (out : List (Output a))
      → handle_datagram c now received fails ≡ ok (c', out)
      → c'.remote ≡ c.remote
  unfolding handle_datagram
  handle_datagram-remote c c' now received fails out h =
      let c₁ : Connection a = record c { keep_alive_timer_start = now } in
      let (c₂, command) = confirm c₁ received in
      ground
        (arith, confirm-remote c₁ received, handle_command-remote c₂ c' command received fails out)

  receive_callback-remote :
      (c c' : Connection a) (now : ℕ) (received : Bytes) (fails : Bool) (out : List (Output a))
      → receive_callback c now received fails ≡ ok (c', out)
      → c'.remote ≡ c.remote
  unfolding receive_callback start_receiver_thread
  receive_callback-remote c c' now received fails out h =
      elim (Result-cases (handle_datagram c now received fails)) [
        | inl ((c₁, out₁), e) ↦
            ground (arith, e, handle_datagram-remote c c₁ now received fails out₁ e)
        | inr (f, e) ↦ ground (arith, e)
      ]

  receive_waiting-remote :
      (before : List (Heard a)) (last : Heard a) (c c' : Connection a) (out : List (Output a))
      → receive_waiting c (before ++ (last ∷ [])) ≡ ok (c', out)
      → c'.remote ≡ last.sender
  unfolding receive_waiting
  receive_waiting-remote [] last c c' out h =
      let c₀ : Connection a = record c { remote = last.sender } in
      elim (Result-cases (receive_callback c₀ last.now last.bytes last.send_fails)) [
        | inr (f, failed) ↦ absurd (ground (arith, h, failed))
        | inl ((c₁, out₁), received) ↦
            let same : c₁ ≡ c' = ground (arith, h, received) in
            ap (λ x. x.remote) (sym same)
            ∙ receive_callback-remote c₀ c₁ last.now last.bytes last.send_fails out₁ received
      ]
  receive_waiting-remote (first ∷ before) last c c' out h =
      let c₀ : Connection a = record c { remote = first.sender } in
      elim (Result-cases (receive_callback c₀ first.now first.bytes first.send_fails)) [
        | inr (f, failed) ↦ absurd (ground (arith, h, failed))
        | inl ((c₁, out₁), received) ↦
            elim (Result-cases (receive_waiting c₁ (before ++ (last ∷ [])))) [
              | inr (f, failed) ↦ absurd (ground (arith, h, received, failed))
              | inl ((c₂, out₂), others) ↦
                  let same : c₂ ≡ c' = ground (arith, h, received, others) in
                  ap (λ x. x.remote) (sym same)
                  ∙ receive_waiting-remote before last c₁ c₂ out₂ others
            ]
      ]

  send_data-to :
      (c : Connection a) (frame : Bytes)
      → c.connected ≡ true
      → c.is_open ≡ true
      → send_data c frame false ≡ (c, true, datagram c.remote (ethernet_data_string ++ frame) ∷ [])
  unfolding send_data send
  send_data-to c frame up opened = ground (arith, up, opened)

  -- Whoever sends the socket the last of the datagrams that a poll finds, of whatever content, is
  -- where a frame from the PSP goes that is sent next: after the callbacks have handled them
  -- without an exception, with the connection up and its socket open, `Send` gives the socket one
  -- datagram `e;e;` with the frame for the sender of that last one, if the socket does not throw.
  pub poll-remote :
      (c c' : Connection a) (e : Events a) (before : List (Heard a)) (last : Heard a)
      (out : List (Output a)) (frame : Bytes)
      → e.received ≡ before ++ (last ∷ [])
      → poll c e ≡ ok (c', out)
      → c'.connected ≡ true
      → c'.is_open ≡ true
      → send_data c' frame false
        ≡ (c', true, datagram last.sender (ethernet_data_string ++ frame) ∷ [])
  unfolding poll
  poll-remote c c' e before last out frame got h up opened =
      send_data-to c' frame up opened
      ∙ ap {B = Connection a × Bool × List (Output a)}
          (λ to. (c', true, datagram to (ethernet_data_string ++ frame) ∷ []))
          (receive_waiting-remote before last c c' out
            (ap (λ hs. receive_waiting c hs) (sym got) ∙ h))
