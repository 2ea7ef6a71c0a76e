-- ===== src/XLinkKai/Receive/Exceptions.antt =====
-- Which datagrams make `ReceiveCallback` throw.
use cwusb.Base.{
  ℕ, ◌+◌, ◌-◌, ◌<◌, sym, ◌∙◌, take, drop, length, take-append-drop, take_all, length-take, find,
  Option-cases, Bool-cases, Fault, equal→eq, inl, inr, ◌≡◌, refl, ap, Bool, true, false, [], ◌∷◌,
  ◌++◌, Bytes, equal, codes, err, out_of_range, arith,
}
use cwusb.XLinkKai.Connection.{Addresses, Connection}
use cwusb.XLinkKai.Protocol.{connected_string, ethernet_data_command, set_essid_format}
use cwusb.XLinkKai.Receive.{
  command_of, handle_meta, handle_ethernet, confirm, receive_callback, handle_datagram,
  handle_command,
}

-- The texts `e;`, `e;` with one byte more, and `e;d;setessid`.
pub data IsMalformed : Bytes → Type 0 where
  bare : {received : Bytes} → received ≡ codes "e;" → IsMalformed received
  one_byte : {received : Bytes} (b : ℕ) → received ≡ codes "e;" ++ (b ∷ []) → IsMalformed received
  essid : {received : Bytes} → received ≡ codes "e;d;setessid" → IsMalformed received

-- A byte string with a known prefix.
split_prefix : (n : ℕ) (s pre : Bytes) → take n s ≡ pre → (rest : Bytes) × (s ≡ pre ++ rest)
split_prefix n s pre e = (drop n s, sym (take-append-drop n s) ∙ ap (λ t. t ++ drop n s) e)

-- The bytes behind `e;` where the command is `e;`.
command_of-ethernet :
    (received : Bytes)
    → equal (command_of received) ethernet_data_command ≡ true
    → (rest : Bytes) × (received ≡ codes "e;" ++ rest)
unfolding equal
command_of-ethernet received h = elim (Option-cases (find b';' received)) [
  | inl e ↦ absurd (ground arith)
  | inr (i, e) ↦
      split_prefix (i + 1) received (codes "e;")
        (equal→eq (take (i + 1) received) (codes "e;") (ground arith))
]

nothing_left :
    (s : Bytes) (n : ℕ) → length s < n → length (take (n - 1) s) ≡ n - 1 → take (n - 1) s ≡ s
nothing_left s n h k = take_all s (n - 1) (omega (arith, length-take (n - 1) s))

module _ {a : Addresses} (c : Connection a) where
  handle_meta-throws :
      (rest : Bytes) {f : Fault}
      → handle_meta c (codes "e;d;" ++ rest) ≡ err f
      → rest ≡ set_essid_format
  unfolding handle_meta
  handle_meta-throws rest h = elim (Bool-cases (equal (take 8 rest) set_essid_format)) [
    | inl e ↦
        let format : take 8 rest ≡ set_essid_format = equal→eq (take 8 rest) set_essid_format e in
        sym (nothing_left rest 9 (ground arith) (ap length format)) ∙ format
    | inr ne ↦ absurd (ground arith)
  ]

  handle_ethernet-throws :
      (rest : Bytes) {f : Fault}
      → handle_ethernet c (codes "e;" ++ rest) ≡ err f
      → IsMalformed (codes "e;" ++ rest)
  unfolding handle_ethernet equal
  handle_ethernet-throws [] h = bare refl
  handle_ethernet-throws (x ∷ []) h = one_byte x refl
  handle_ethernet-throws (x ∷ y ∷ rest) {f} h =
      let is_meta : (x ≡ b'd') × (y ≡ b';') = ground arith in
      let logged : handle_meta c (codes "e;d;" ++ rest) ≡ err f = ground arith in
      essid
        (rw (is_meta.0, is_meta.1) (ap (λ t. codes "e;d;" ++ t) (handle_meta-throws rest logged)))

  named-IsMalformed :
      (received : Bytes) {f : Fault}
      → equal (command_of received) ethernet_data_command ≡ true
      → handle_ethernet c received ≡ err f
      → IsMalformed received
  named-IsMalformed received named h =
      let (rest, e) = command_of-ethernet received named in
      rw e (handle_ethernet-throws rest (rw e at h))

  handle_command-throws :
      (command received : Bytes) (fails : Bool) {f : Fault}
      → handle_command c command received fails ≡ err f
      → (equal command ethernet_data_command ≡ true) × (handle_ethernet c received ≡ err f)
  unfolding handle_command
  handle_command-throws command received fails h = ground arith

not_both :
    (command : Bytes)
    → equal command connected_string ≡ true
    → equal command ethernet_data_command ≡ false
not_both command e = rw (equal→eq command connected_string e) (unfold equal in refl)

module _ {a : Addresses} where
  -- A confirmation is no Ethernet data.
  confirm-ethernet :
      (c : Connection a) (received : Bytes)
      → (confirm c received).0.connected ≡ true
      → equal (confirm c received).1 ethernet_data_command ≡ true
      → (c.connected ≡ true) × (equal (command_of received) ethernet_data_command ≡ true)
  unfolding confirm
  confirm-ethernet c received on e =
      ground (arith, not_both (take (length connected_string) received))

  handle_datagram-throws :
      (c : Connection a) (now : ℕ) (received : Bytes) (fails : Bool) {f : Fault}
      → handle_datagram c now received fails ≡ err f
      → let (c', command) = confirm (record c { keep_alive_timer_start = now }) received in
        (c'.connected ≡ true) × (handle_command c' command received fails ≡ err f)
  unfolding handle_datagram
  handle_datagram-throws c now received fails h = ground arith

  receive_callback-handle :
      (c : Connection a) (now : ℕ) (received : Bytes) (fails : Bool) {f : Fault}
      → receive_callback c now received fails ≡ err f
      → handle_datagram c now received fails ≡ err f
  unfolding receive_callback
  receive_callback-handle c now received fails h = ground arith

  -- While the connection is up, each of the malformed texts makes the callback throw
  -- `out_of_range`.
  pub receive_callback-throws :
      (c : Connection a) (now : ℕ) (received : Bytes) (fails : Bool)
      → c.connected ≡ true
      → IsMalformed received
      → receive_callback c now received fails ≡ err out_of_range
  unfolding receive_callback handle_datagram confirm handle_command handle_ethernet handle_meta
      equal
  receive_callback-throws c now received fails on (bare e) = ground arith
  receive_callback-throws c now received fails on (one_byte b e) = ground arith
  receive_callback-throws c now received fails on (essid e) = ground arith

  -- When the callback throws, the connection was up and the datagram is one of the malformed
  -- texts.
  pub receive_callback-throws_only :
      (c : Connection a) (now : ℕ) (received : Bytes) (fails : Bool) {f : Fault}
      → receive_callback c now received fails ≡ err f
      → (c.connected ≡ true) × IsMalformed received
  receive_callback-throws_only c now received fails {f} h =
      let c₁ : Connection a = record c { keep_alive_timer_start = now } in
      let (c', command) = confirm c₁ received in
      let (on, thrown) =
        handle_datagram-throws c now received fails
          (receive_callback-handle c now received fails h) in
      let (is_e, handled) = handle_command-throws c' command received fails thrown in
      let (was_on, named) = confirm-ethernet c₁ received on is_e in
      (was_on, named-IsMalformed c' received named handled)
