-- ===== src/Tests/Engine.antt =====
-- `XLinkKaiConnection`.
use cwusb.Base.{
  ℕ, ◌^◌, ◌*◌, ◌≡◌, refl, true, false, List, [], ◌∷◌, ◌++◌, none, some, Bytes, equal, codes, inl,
  inr, ok, err, out_of_range, arith, if◌then◌else◌,
}
use cwusb.XLinkKai.Protocol.{
  default_ip, default_port, connect_string, connected_string, disconnected_string,
  ethernet_data_string, keep_alive_string, setting_dds_only_string,
}
use cwusb.XLinkKai.Connection.{
  Addresses, Connection, datagram, to_usb, initial, say_goodbye, close, open_socket, connect, send,
  send_data, handle_keep_alive,
}
use cwusb.XLinkKai.Receive.{
  confirm, handle_command, handle_datagram, handle_ethernet, receive_callback,
  start_receiver_thread,
}
use cwusb.XLinkKai.Receive.Ethernet.{after_frame, receive_callback-frame}
use cwusb.XLinkKai.Receive.Exceptions.{
  IsMalformed, essid, receive_callback-throws, receive_callback-throws_only,
}
use cwusb.XLinkKai.Loop.{Heard, Events, pass, run, receive_waiting, poll, reconnect, send_settings}
use cwusb.XLinkKai.Loop.Safety.{IsConsistent, run-IsConsistent}
use cwusb.XLinkKai.Loop.Silence.{Asks, pass-Asks}
use cwusb.XLinkKai.Loop.Unanswered.{run_unanswered}
use cwusb.XLinkKai.Loop.Remote.{poll-remote}
use cwusb.XLinkKai.Loop.Alive.{IsUp, silent, alive, frame, over, speaks, run-IsLively}
use cwusb.XLinkKai.Loop.Recovery.{IsAsking, run_silent_engine, run_disconnected_engine}

-- Only the loopback address can be parsed.
abbrev pub loopback_only : Addresses
loopback_only = record {
  Address = ℕ;
  from_string = λ text. if equal text default_ip then some 1 else none;
  unset = 0;
}

abbrev pub up : Connection loopback_only
unfolding initial
up = record (initial loopback_only) {
  connected = true;
  settings_sent = true;
  incoming_connection = true;
  is_open = true;
  receiver_thread = true;
}

abbrev pub heard : ℕ → Bytes → Heard loopback_only
heard now bytes = record { bytes = bytes; sender = (1, 34523); now = now; send_fails = false }

abbrev pub at : ℕ → List (Heard loopback_only) → Events loopback_only
at now received = record { now = now; send_fails = false; open_fails = false; received = received }

frame_handed_on :
    receive_callback up 5 (ethernet_data_string ++ (1 ∷ 2 ∷ [])) false
    ≡ ok (after_frame up 5 (1 ∷ 2 ∷ []), to_usb (1 ∷ 2 ∷ []) ∷ [])
unfolding initial up
frame_handed_on = receive_callback-frame up 5 (1 ∷ 2 ∷ []) false refl refl

receive_callback-throws_example :
    receive_callback up 5 (codes "e;d;setessid") false ≡ err out_of_range
unfolding initial up
receive_callback-throws_example =
    receive_callback-throws up 5 (codes "e;d;setessid") false refl (essid refl)

throws : receive_callback up 5 (codes "e;") false ≡ err out_of_range
unfolding initial up receive_callback handle_datagram confirm handle_command handle_ethernet equal
throws = refl

receive_callback-throws_only_example : (up.connected ≡ true) × IsMalformed (codes "e;")
receive_callback-throws_only_example = receive_callback-throws_only up 5 (codes "e;") false throws

-- The connection after it was asked for at time 7.
abbrev asked : Connection loopback_only
unfolding initial
asked = record (initial loopback_only) {
  connect_initiated = true;
  connection_timer_start = 7;
  is_open = true;
}

-- A confirmation, then a pass that sends the settings.
abbrev confirmed : Connection loopback_only
unfolding initial asked
confirmed = record asked {
  connect_initiated = false;
  connected = true;
  receiver_thread = true;
  keep_alive_timer_start = 8;
  remote = (1, 34523);
  settings_sent = true;
}

abbrev two_events : List (Events loopback_only)
two_events = at 8 (heard 8 connected_string ∷ []) ∷ at 9 [] ∷ []

two_passes : run asked two_events ≡ ok (confirmed, datagram (1, 34523) setting_dds_only_string ∷ [])
unfolding initial asked confirmed run pass poll receive_waiting receive_callback handle_datagram
    confirm handle_command handle_ethernet start_receiver_thread send_settings send equal
two_passes = refl

run-IsConsistent_example : IsConsistent confirmed
unfolding initial asked confirmed
run-IsConsistent_example =
    run-IsConsistent two_events asked confirmed (datagram (1, 34523) setting_dds_only_string ∷ [])
      two_passes (record { up = inl refl; asked = inr refl })

abbrev asking : Connection loopback_only
unfolding initial
asking = record (initial loopback_only) {
  connect_initiated = true;
  connection_timer_start = 7;
  remote = (1, default_port);
  is_open = true;
}

first_pass :
    pass (initial loopback_only) (at 7 [])
    ≡ ok (asking, datagram (1, default_port) connect_string ∷ [])
unfolding initial asking pass reconnect close say_goodbye open_socket connect send equal
first_pass = refl

pass-Asks_example : Asks {a = loopback_only} (datagram (1, default_port) connect_string ∷ [])
unfolding initial asking
pass-Asks_example =
    pass-Asks (initial loopback_only) asking (at 7 [])
      (datagram (1, default_port) connect_string ∷ []) first_pass refl tt

run_silent_engine_example :
    (c' : Connection loopback_only) × (run up (at (61 * 10 ^ 9) [] ∷ at (62 * 10 ^ 9) [] ∷ [])
      ≡ ok (c', datagram (1, default_port) connect_string ∷ []))
    × IsAsking c' (62 * 10 ^ 9)
    × (c'.settings_sent ≡ false)
unfolding initial up equal
run_silent_engine_example =
    run_silent_engine up (at (61 * 10 ^ 9) []) (at (62 * 10 ^ 9) []) 1 refl refl refl refl refl refl

run_disconnected_engine_example :
    (c' : Connection loopback_only) × (run up (
        at 1 (heard 1 disconnected_string ∷ [])
        ∷ at 2 []
        ∷ at 3 (heard 3 connected_string ∷ [])
        ∷ [])
      ≡ ok (c', datagram (1, default_port) connect_string ∷ []))
    × (c'.connected ≡ true)
    × (c'.settings_sent ≡ true)
unfolding initial up equal
run_disconnected_engine_example =
    run_disconnected_engine up (at 1 (heard 1 disconnected_string ∷ [])) (at 2 [])
      (at 3 (heard 3 connected_string ∷ [])) (heard 1 disconnected_string)
      (heard 3 connected_string) 1 refl refl refl refl refl refl refl refl refl (omega arith) refl
      refl

run_unanswered_example :
    (c' : Connection loopback_only) × (run asked
        (at 8 [] ∷ at (11 * 10 ^ 9) [] ∷ at (12 * 10 ^ 9) [] ∷ [])
      ≡ ok (c', datagram (1, default_port) connect_string ∷ []))
    × IsAsking c' (12 * 10 ^ 9)
    × (c'.settings_sent ≡ false)
unfolding initial asked equal
run_unanswered_example =
    run_unanswered asked 7 (at 8 [] ∷ []) (at (11 * 10 ^ 9) []) (at (12 * 10 ^ 9) []) 1
      (record { down = refl; asking = refl; opened = refl; since = refl }) (refl, omega arith, tt)
      (omega arith) refl refl refl

-- A keep-alive, and one byte from somebody else.
abbrev strange : Heard loopback_only
strange = record { bytes = codes "x"; sender = (9, 99); now = 6; send_fails = true }

abbrev two_heard : Events loopback_only
two_heard = at 5 (heard 5 keep_alive_string ∷ strange ∷ [])

abbrev taken_over : Connection loopback_only
unfolding initial up
taken_over = record up { keep_alive_timer_start = 6; remote = (9, 99) }

polled : poll up two_heard ≡ ok (taken_over, datagram (1, 34523) keep_alive_string ∷ [])
unfolding initial up taken_over poll receive_waiting receive_callback handle_datagram confirm
    handle_command handle_ethernet handle_keep_alive send start_receiver_thread equal
polled = refl

poll-remote_example :
    send_data taken_over (7 ∷ []) false
    ≡ (taken_over, true, datagram (9, 99) (ethernet_data_string ++ (7 ∷ [])) ∷ [])
unfolding initial up taken_over
poll-remote_example =
    poll-remote up taken_over two_heard (heard 5 keep_alive_string ∷ []) strange
      (datagram (1, 34523) keep_alive_string ∷ []) (7 ∷ []) refl polled refl refl

-- A keep-alive after 59 seconds and, after 100, two frames in one poll, at which the timer starts again.
run-IsLively_example :
    (c' : Connection loopback_only) × (last : ℕ) × (run up (
        at (30 * 10 ^ 9) []
        ∷ at (59 * 10 ^ 9) (heard (59 * 10 ^ 9) keep_alive_string ∷ [])
        ∷ at (100 * 10 ^ 9) (
            heard (100 * 10 ^ 9) (ethernet_data_string ++ (1 ∷ 2 ∷ []))
            ∷ heard (101 * 10 ^ 9) (ethernet_data_string ++ (3 ∷ []))
            ∷ [])
        ∷ at (160 * 10 ^ 9) []
        ∷ [])
      ≡ ok (c', datagram (1, 34523) keep_alive_string ∷ to_usb (1 ∷ 2 ∷ []) ∷ to_usb (3 ∷ []) ∷ []))
    × IsUp c' last
unfolding initial up
run-IsLively_example =
    run-IsLively up
      (at (30 * 10 ^ 9) []
        ∷ at (59 * 10 ^ 9) (heard (59 * 10 ^ 9) keep_alive_string ∷ [])
        ∷ at (100 * 10 ^ 9) (
            heard (100 * 10 ^ 9) (ethernet_data_string ++ (1 ∷ 2 ∷ []))
            ∷ heard (101 * 10 ^ 9) (ethernet_data_string ++ (3 ∷ []))
            ∷ [])
        ∷ at (160 * 10 ^ 9) []
        ∷ [])
      0
      (record {
        connected = refl;
        not_asking = refl;
        settings = refl;
        incoming = refl;
        socket = refl;
        heard = refl;
      })
      (speaks (omega arith) silent (
        speaks (omega arith) (alive refl silent) (
          speaks (omega arith) (frame (1 ∷ 2 ∷ []) refl (frame (3 ∷ []) refl silent))
            (speaks (omega arith) silent over))))
