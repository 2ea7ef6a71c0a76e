-- ===== src/XLinkKai/Loop/Silence.antt =====
-- The thread of `XLinkKaiConnection` while the connection is not up.
use cwusb.Base.{
  ℕ, ◌≡◌, refl, Bool, true, false, List, [], ◌∷◌, Bytes, equal, equal→eq, take, length, inl, inr,
  ◌⊎◌, Bool-cases, Result-cases, ok, arith,
}
use cwusb.XLinkKai.Protocol.{connect_string, connected_string}
use cwusb.XLinkKai.Connection.{
  Addresses, Connection, Output, datagram, to_usb, open_socket, send, connect, say_goodbye, close,
}
use cwusb.XLinkKai.Receive.{
  handle_command, confirm, handle_datagram, receive_callback, start_receiver_thread,
}
use cwusb.XLinkKai.Loop.{Heard, Events, reconnect, receive_waiting, poll, pass}

-- All that is sent is the request to connect.
abbrev pub Asks : {a : Addresses} → List (Output a) → Type 0
Asks [] = Unit {0}
Asks (datagram to bytes ∷ out) = (bytes ≡ connect_string) × Asks out
Asks (to_usb frame ∷ out) = ⊥

nothing-Asks : {a : Addresses} (out : List (Output a)) → out ≡ [] → Asks out
nothing-Asks out nothing = rw nothing tt

-- The datagram starts with the confirmation.
abbrev pub Confirms : Bytes → Type 0
Confirms received = take (length connected_string) received ≡ connected_string

module _ {a : Addresses} where
  -- No datagram stands behind one that confirms.
  abbrev pub NoneBehind : List (Heard a) → Type 0
  NoneBehind [] = Unit {0}
  NoneBehind (last ∷ []) = Unit {0}
  NoneBehind (first ∷ next ∷ hs) = ¬ Confirms first.bytes × NoneBehind (next ∷ hs)

  confirm_sends :
      (c : Connection a) (received : Bytes)
      → c.connected ≡ false
      → (confirm c received).0.connected ≡ true
      → ((confirm c received).1 ≡ connected_string) × Confirms received
  unfolding confirm
  confirm_sends c received off on =
      ground (arith, equal→eq (take (length connected_string) received) connected_string)

  handle_command-confirmation :
      (c : Connection a) (received : Bytes) (fails : Bool)
      → handle_command c connected_string received fails ≡ ok (c, [])
  unfolding handle_command equal
  handle_command-confirmation c received fails = refl

  -- Without a confirmation nothing is done, and with one it is noted; nothing is sent.
  handle_datagram-quiet :
      (c c' : Connection a) (now : ℕ) (received : Bytes) (fails : Bool) (out : List (Output a))
      → handle_datagram c now received fails ≡ ok (c', out)
      → c.connected ≡ false
      → (out ≡ []) × ((c'.connected ≡ false) ⊎ Confirms received)
  unfolding handle_datagram
  handle_datagram-quiet c c' now received fails out h off =
      let c₁ : Connection a = record c { keep_alive_timer_start = now } in
      elim (Bool-cases (confirm c₁ received).0.connected) [
        | inl on ↦
            let command = confirm_sends c₁ received off on in
            (
              ground (
                arith,
                on,
                command,
                handle_command-confirmation (confirm c₁ received).0 received fails,
              ),
              inr command.1,
            )
        | inr down ↦ (ground (arith, down), inl (ground (arith, down)))
      ]

  receive_callback-quiet :
      (c c' : Connection a) (now : ℕ) (received : Bytes) (fails : Bool) (out : List (Output a))
      → receive_callback c now received fails ≡ ok (c', out)
      → c.connected ≡ false
      → (out ≡ []) × ((c'.connected ≡ false) ⊎ Confirms received)
  unfolding receive_callback start_receiver_thread
  receive_callback-quiet c c' now received fails out h off =
      elim (Result-cases (handle_datagram c now received fails)) [
        | inl ((c₁, out₁), e) ↦
            ground (arith, e, handle_datagram-quiet c c₁ now received fails out₁ e off)
        | inr (f, e) ↦ ground (arith, e)
      ]

  receive_waiting-quiet :
      (hs : List (Heard a)) (c c' : Connection a) (out : List (Output a))
      → receive_waiting c hs ≡ ok (c', out)
      → c.connected ≡ false
      → NoneBehind hs
      → out ≡ []
  unfolding receive_waiting
  receive_waiting-quiet [] c c' out h off none_behind = ground (arith, h)
  receive_waiting-quiet (last ∷ []) c c' out h off none_behind =
      let c₀ : Connection a = record c { remote = last.sender } in
      elim (Result-cases (receive_callback c₀ last.now last.bytes last.send_fails)) [
        | inr (f, failed) ↦ absurd (ground (arith, h, failed))
        | inl ((c₁, out₁), received) ↦
            let (nothing, _) =
              receive_callback-quiet c₀ c₁ last.now last.bytes last.send_fails out₁ received off in
            ground (arith, h, received, nothing)
      ]
  receive_waiting-quiet (first ∷ next ∷ hs) c c' out h off (unconfirmed, none_behind) =
      let c₀ : Connection a = record c { remote = first.sender } in
      elim (Result-cases (receive_callback c₀ first.now first.bytes first.send_fails)) [
        | inr (f, failed) ↦ absurd (ground (arith, h, failed))
        | inl ((c₁, out₁), received) ↦
            let (nothing, still) =
              receive_callback-quiet c₀ c₁ first.now first.bytes first.send_fails out₁ received
                off in
            let off₁ : c₁.connected ≡ false = (elim still [
              | inl down ↦ down
              | inr confirms ↦ absurd (unconfirmed confirms)
            ]) in
            elim (Result-cases (receive_waiting c₁ (next ∷ hs))) [
              | inr (f, failed) ↦ absurd (ground (arith, h, received, failed))
              | inl ((c₂, out₂), others) ↦
                  let nothing₂ =
                    receive_waiting-quiet (next ∷ hs) c₁ c₂ out₂ others off₁ none_behind in
                  ground (arith, h, received, others, nothing, nothing₂)
            ]
      ]

  reconnect-Asks :
      (c c' : Connection a) (e : Events a) (out : List (Output a))
      → reconnect c e ≡ ok (c', out)
      → c.connected ≡ false
      → c.connect_initiated ≡ false
      → Asks out
  unfolding reconnect close say_goodbye open_socket connect send
  reconnect-Asks c c' e out h off idle = ground arith

  -- A pass that starts while the connection is not up, and does not throw, sends nothing but the
  -- request to connect, and hands nothing to the PSP's side, if no datagram is handled behind one
  -- that starts with the confirmation.
  pub pass-Asks :
      (c c' : Connection a) (e : Events a) (out : List (Output a))
      → pass c e ≡ ok (c', out)
      → c.connected ≡ false
      → NoneBehind e.received
      → Asks out
  unfolding pass poll
  pass-Asks c c' e out h off none_behind = ground (
    arith,
    reconnect-Asks c c' e out,
    nothing-Asks out,
    receive_waiting-quiet e.received c c' out,
  )
