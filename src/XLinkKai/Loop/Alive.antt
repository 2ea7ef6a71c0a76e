-- ===== src/XLinkKai/Loop/Alive.antt =====
-- The thread of `XLinkKaiConnection` while the engine keeps sending.
use cwusb.Base.{
  ℕ, ◌+◌, ◌≤◌, ◌≡◌, refl, ◌∙◌, Bool, true, false, List, [], ◌∷◌, ◌++◌, Bytes, equal, ok,
  if◌then◌else◌, arith,
}
use cwusb.XLinkKai.Protocol.{ethernet_data_string, keep_alive_string, keep_alive_timeout}
use cwusb.XLinkKai.Connection.{
  Addresses, Connection, Output, datagram, to_usb, send, handle_keep_alive,
}
use cwusb.XLinkKai.Receive.{
  confirm, handle_command, handle_datagram, receive_callback, start_receiver_thread,
}
use cwusb.XLinkKai.Receive.Ethernet.{after_frame, receive_callback-frame}
use cwusb.XLinkKai.Loop.{Heard, Events, receive_waiting, poll, pass, run}

-- The answer to a keep-alive.
abbrev pub answer : {a : Addresses} → a.Address × ℕ → Bool → List (Output a)
answer to fails = if fails then [] else datagram to keep_alive_string ∷ []

module _ {a : Addresses} where
  -- What the engine sends asks for `out`; it was heard at the time `last`, and is heard for the last
  -- time at `later`.
  pub data Speaks : ℕ → List (Heard a) → List (Output a) → ℕ → Type 0 where
    silent : {last : ℕ} → Speaks last [] [] last
    alive :
        {last later : ℕ} {h : Heard a} {hs : List (Heard a)} {out : List (Output a)}
        → h.bytes ≡ keep_alive_string
        → Speaks h.now hs out later
        → Speaks last (h ∷ hs) (answer h.sender h.send_fails ++ out) later
    frame :
        {last later : ℕ} {h : Heard a} {hs : List (Heard a)} {out : List (Output a)} (bytes : Bytes)
        → h.bytes ≡ ethernet_data_string ++ bytes
        → Speaks h.now hs out later
        → Speaks last (h ∷ hs) (to_usb bytes ∷ out) later

  -- The engine was heard at most 60 seconds before every pass, at first at the time `last`.
  pub data IsLively : ℕ → List (Events a) → List (Output a) → Type 0 where
    over : {last : ℕ} → IsLively last [] []
    speaks :
        {last later : ℕ} {e : Events a} {es : List (Events a)} {out more : List (Output a)}
        → e.now ≤ last + keep_alive_timeout
        → Speaks last e.received out later
        → IsLively later es more
        → IsLively last (e ∷ es) (out ++ more)

  pub record IsUp (c : Connection a) (last : ℕ) : Type 0 where
    pub connected : c.connected ≡ true
    pub not_asking : c.connect_initiated ≡ false
    pub settings : c.settings_sent ≡ true
    pub incoming : c.incoming_connection ≡ true
    pub socket : c.is_open ≡ true
    pub heard : c.keep_alive_timer_start ≡ last

  receive_callback-alive :
      (c : Connection a) (now : ℕ) (fails : Bool) {last : ℕ}
      → IsUp c last
      → (c' : Connection a) × (receive_callback c now keep_alive_string fails
          ≡ ok (c', answer c.remote fails))
        × IsUp c' now
  unfolding receive_callback handle_datagram confirm handle_command handle_keep_alive send
      start_receiver_thread equal
  receive_callback-alive c now fails v = (
    record c { keep_alive_timer_start = now; receiver_thread = true },
    ground (arith, v.connected, v.socket),
    record {
      connected = v.connected;
      not_asking = v.not_asking;
      settings = v.settings;
      incoming = v.incoming;
      socket = v.socket;
      heard = refl;
    },
  )

  after_frame-IsUp :
      (c : Connection a) (now : ℕ) (bytes : Bytes) {last : ℕ}
      → IsUp c last
      → IsUp (after_frame c now bytes) now
  unfolding start_receiver_thread
  after_frame-IsUp c now bytes v = record {
    connected = ground (arith, v.connected, v.socket);
    not_asking = ground (arith, v.not_asking, v.socket);
    settings = ground (arith, v.settings, v.socket);
    incoming = ground (arith, v.incoming, v.socket);
    socket = ground (arith, v.socket);
    heard = ground (arith, v.socket);
  }

  -- While the connection is up and not timed out, a pass polls.
  pass-polls :
      (c : Connection a) (e : Events a) {last : ℕ}
      → IsUp c last
      → e.now ≤ last + keep_alive_timeout
      → pass c e ≡ poll c e
  unfolding pass
  pass-polls c e v soon = ground (arith, v.connected, v.not_asking, v.settings, v.heard, soon)

  sender-IsUp :
      (c : Connection a) (h : Heard a) {last : ℕ}
      → IsUp c last
      → IsUp (record c { remote = h.sender }) last
  sender-IsUp c h v = record {
    connected = v.connected;
    not_asking = v.not_asking;
    settings = v.settings;
    incoming = v.incoming;
    socket = v.socket;
    heard = v.heard;
  }

  receive_waiting-cons :
      (c : Connection a) (h : Heard a) (hs : List (Heard a)) {received : Bytes}
      {c₁ c' : Connection a} {out more : List (Output a)}
      → h.bytes ≡ received
      → receive_callback (record c { remote = h.sender }) h.now received h.send_fails ≡ ok (c₁, out)
      → receive_waiting c₁ hs ≡ ok (c', more)
      → receive_waiting c (h ∷ hs) ≡ ok (c', out ++ more)
  unfolding receive_waiting
  receive_waiting-cons c h hs same received others = ground (arith, same, received, others)

  -- The callbacks of a poll.
  receive_waiting-Speaks :
      (c : Connection a) (hs : List (Heard a)) {last later : ℕ} {out : List (Output a)}
      → IsUp c last
      → Speaks last hs out later
      → (c' : Connection a) × (receive_waiting c hs ≡ ok (c', out)) × IsUp c' later
  unfolding receive_waiting
  receive_waiting-Speaks c hs v (silent) = (c, refl, v)
  receive_waiting-Speaks c hs v (alive {h = h} {hs = others} same rest) =
      let c₀ : Connection a = record c { remote = h.sender } in
      let (c₁, answered, v₁) = receive_callback-alive c₀ h.now h.send_fails (sender-IsUp c h v) in
      let (c', received, v') = receive_waiting-Speaks c₁ others v₁ rest in
      (c', receive_waiting-cons c h others same answered received, v')
  receive_waiting-Speaks c hs v (frame {h = h} {hs = others} bytes same rest) =
      let c₀ : Connection a = record c { remote = h.sender } in
      let v₀ = sender-IsUp c h v in
      let v₁ = after_frame-IsUp c₀ h.now bytes v₀ in
      let (c', received, v') = receive_waiting-Speaks (after_frame c₀ h.now bytes) others v₁ rest in
      (
        c',
        receive_waiting-cons c h others same
            (receive_callback-frame c₀ h.now bytes h.send_fails v₀.connected v₀.incoming) received,
        v',
      )

  polls :
      (c : Connection a) (e : Events a) {c' : Connection a} {out : List (Output a)}
      → receive_waiting c e.received ≡ ok (c', out)
      → poll c e ≡ ok (c', out)
  unfolding poll
  polls c e received = received

  run-pass :
      (c : Connection a) (e : Events a) (es : List (Events a)) {c₁ c' : Connection a}
      {out more : List (Output a)}
      → pass c e ≡ ok (c₁, out)
      → run c₁ es ≡ ok (c', more)
      → run c (e ∷ es) ≡ ok (c', out ++ more)
  unfolding run
  run-pass c e es passes ran = ground (arith, passes, ran)

  -- An engine that sends keep-alives and frames, any number of them for each poll, and is heard at
  -- most 60 seconds before every pass, keeps the connection up: over any number of passes the
  -- thread neither resets the connection nor asks for it again, answers each keep-alive whose
  -- answer the socket takes, to the sender of the keep-alive, and hands each frame to the USB
  -- side, in their order, and nothing else. At the start the connection is up, its socket open,
  -- its settings sent and the USB side set.
  pub run-IsLively :
      (c : Connection a) (es : List (Events a)) (last : ℕ) {out : List (Output a)}
      → IsUp c last
      → IsLively last es out
      → (c' : Connection a) × (heard : ℕ) × (run c es ≡ ok (c', out)) × IsUp c' heard
  unfolding run
  run-IsLively c es last v (over) = (c, last, refl, v)
  run-IsLively c es last v (speaks {e = e} {es = others} soon speech rest) =
      let (c₁, received, v₁) = receive_waiting-Speaks c e.received v speech in
      let (c', heard, ran, v') = run-IsLively c₁ others _ v₁ rest in
      (c', heard, run-pass c e others (pass-polls c e v soon ∙ polls c e received) ran, v')
