-- ===== src/XLinkKai/Loop/Safety.antt =====
-- The flags of `XLinkKaiConnection` from one pass of its thread to the next.
use cwusb.Base.{
  ℕ, ◌≡◌, ◌∙◌, refl, Bool, true, false, List, [], ◌∷◌, Bytes, ◌⊎◌, inl, inr, Result-cases, ok,
  arith,
}
use cwusb.XLinkKai.Connection.{
  Addresses, Connection, Output, initial, open_socket, send, connect, say_goodbye, close,
  handle_keep_alive,
}
use cwusb.XLinkKai.Receive.{
  handle_ethernet, handle_meta, handle_disconnected, handle_command, confirm, handle_datagram,
  receive_callback, start_receiver_thread,
}
use cwusb.XLinkKai.Loop.{Heard, Events, reconnect, send_settings, receive_waiting, poll, pass, run}

module _ {a : Addresses} where
  -- A connection that is up or being asked for has an open socket, and is not both.
  pub record IsConsistent (c : Connection a) : Type 0 where
    pub up : (c.connected ≡ false) ⊎ ((c.is_open ≡ true) × (c.connect_initiated ≡ false))
    pub asked : (c.connect_initiated ≡ false) ⊎ (c.is_open ≡ true)

  initial-IsConsistent : IsConsistent (initial a)
  unfolding initial
  initial-IsConsistent = record { up = inl refl; asked = inl refl }

  handle_ethernet-keeps :
      (c c' : Connection a) (received : Bytes) (out : List (Output a))
      → handle_ethernet c received ≡ ok (c', out)
      → IsConsistent c
      → IsConsistent c' × (c'.is_open ≡ c.is_open)
  unfolding handle_ethernet handle_meta
  handle_ethernet-keeps c c' received out h v = ground arith

  handle_command-keeps :
      (c c' : Connection a) (command received : Bytes) (fails : Bool) (out : List (Output a))
      → handle_command c command received fails ≡ ok (c', out)
      → IsConsistent c
      → IsConsistent c' × (c'.is_open ≡ c.is_open)
  unfolding handle_command handle_disconnected handle_keep_alive send
  handle_command-keeps c c' command received fails out h v =
      ground (arith, handle_ethernet-keeps c c' received out)

  confirm-keeps :
      (c : Connection a) (received : Bytes)
      → c.is_open ≡ true
      → IsConsistent c
      → IsConsistent (confirm c received).0 × ((confirm c received).0.is_open ≡ c.is_open)
  unfolding confirm
  confirm-keeps c received opened v = ground arith

  handle_datagram-keeps :
      (c c' : Connection a) (now : ℕ) (received : Bytes) (fails : Bool) (out : List (Output a))
      → handle_datagram c now received fails ≡ ok (c', out)
      → c.is_open ≡ true
      → IsConsistent c
      → IsConsistent c' × (c'.is_open ≡ c.is_open)
  unfolding handle_datagram
  handle_datagram-keeps c c' now received fails out h opened v =
      let c₁ : Connection a = record c { keep_alive_timer_start = now } in
      let v₁ = confirm-keeps c₁ received opened (record { up = v.up; asked = v.asked }) in
      ground (
        arith,
        v₁,
        handle_command-keeps (confirm c₁ received).0 c' (confirm c₁ received).1 received fails out,
      )

  receive_callback-keeps :
      (c c' : Connection a) (now : ℕ) (received : Bytes) (fails : Bool) (out : List (Output a))
      → receive_callback c now received fails ≡ ok (c', out)
      → c.is_open ≡ true
      → IsConsistent c
      → IsConsistent c' × (c'.is_open ≡ c.is_open)
  unfolding receive_callback start_receiver_thread
  receive_callback-keeps c c' now received fails out h opened v =
      elim (Result-cases (handle_datagram c now received fails)) [
        | inl ((c₁, out₁), e) ↦
            ground (arith, e, handle_datagram-keeps c c₁ now received fails out₁ e opened v)
        | inr (f, e) ↦ ground (arith, e)
      ]

  reconnect-keeps :
      (c c' : Connection a) (e : Events a) (out : List (Output a))
      → reconnect c e ≡ ok (c', out)
      → IsConsistent c'
  unfolding reconnect close say_goodbye open_socket connect send
  reconnect-keeps c c' e out h = ground arith

  receive_waiting-keeps :
      (hs : List (Heard a)) (c c' : Connection a) (out : List (Output a))
      → receive_waiting c hs ≡ ok (c', out)
      → c.is_open ≡ true
      → IsConsistent c
      → IsConsistent c'
  unfolding receive_waiting
  receive_waiting-keeps [] c c' out h opened v = ground (arith, h, v)
  receive_waiting-keeps (heard ∷ hs) c c' out h opened v =
      let c₀ : Connection a = record c { remote = heard.sender } in
      let v₀ : IsConsistent c₀ = record { up = v.up; asked = v.asked } in
      elim (Result-cases (receive_callback c₀ heard.now heard.bytes heard.send_fails)) [
        | inr (f, failed) ↦ absurd (ground (arith, h, failed))
        | inl ((c₁, out₁), received) ↦
            let (v₁, same) =
              receive_callback-keeps c₀ c₁ heard.now heard.bytes heard.send_fails out₁ received
                opened v₀ in
            elim (Result-cases (receive_waiting c₁ hs)) [
              | inr (f, failed) ↦ absurd (ground (arith, h, received, failed))
              | inl ((c₂, out₂), others) ↦
                  let last : c₂ ≡ c' = ground (arith, h, received, others) in
                  rw (← last) (receive_waiting-keeps hs c₁ c₂ out₂ others (same ∙ opened) v₁)
            ]
      ]

  pass-keeps :
      (c c' : Connection a) (e : Events a) (out : List (Output a))
      → pass c e ≡ ok (c', out)
      → IsConsistent c
      → IsConsistent c'
  unfolding pass poll send_settings send
  pass-keeps c c' e out h v =
      ground (arith, reconnect-keeps c c' e out, receive_waiting-keeps e.received c c' out)

  -- After any passes of the thread that do not throw, a connection that is up or being asked for
  -- has an open socket, and is not both up and being asked for, if that held before.
  pub run-IsConsistent :
      (es : List (Events a)) (c c' : Connection a) (out : List (Output a))
      → run c es ≡ ok (c', out)
      → IsConsistent c
      → IsConsistent c'
  unfolding run
  run-IsConsistent [] c c' out h v = ground arith
  run-IsConsistent (e ∷ es) c c' out h v = elim (Result-cases (pass c e)) [
    | inr (f, failed) ↦ ground (arith, failed)
    | inl ((c₁, out₁), passed) ↦ elim (Result-cases (run c₁ es)) [
      | inr (f, failed) ↦ ground (arith, passed, failed)
      | inl ((c₂, out₂), ran) ↦
          let same : c₂ ≡ c' = ground (arith, passed, ran) in
          rw (← same) (run-IsConsistent es c₁ c₂ out₂ ran (pass-keeps c c₁ e out₁ passed v))
    ]
  ]
