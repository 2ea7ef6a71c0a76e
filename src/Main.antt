-- ===== src/Main.antt =====
-- main.cpp: opening both sides, starting their threads and closing them again.
pub mod Startup
pub mod Surroundings
pub mod End
use cwusb.Base.{
  ℕ, Bool, true, false, not, ◌&&◌, ◌||◌, List, [], ◌∷◌, ◌++◌, Option, none, some, Result, ok, err,
  out_of_fuel, ◌>>=◌, if◌then◌else◌,
}
use cwusb.Settings.Numbers.{stoi}
use cwusb.Settings.Model
use cwusb.Settings.Model.{Settings}
use cwusb.Reader.State
use cwusb.Reader.State.{Reader}
use cwusb.Reader.Device.{Device, open_device}
use cwusb.Reader.Control
use cwusb.XLinkKai.Connection
use cwusb.XLinkKai.Connection.{Addresses, Connection, initial, open_socket, set_incoming_connection}
use cwusb.XLinkKai.Receive

-- The variables of `main`; `success` and `usb_success` say which side is open.
pub record Program (a : Addresses) : Type 0 where
  pub settings : Settings
  pub connection : Connection a
  pub reader : Reader
  pub success : Bool
  pub usb_success : Bool

-- What the surroundings do in one pass of the loop: whether the program is to run on, whether the
-- socket's calls fail, and libusb's devices.
pub record Events : Type 0 where
  pub running : Bool
  pub open_fails : Bool
  pub send_fails : Bool
  pub devices : Option (List Device)

module _ (a : Addresses) where
  -- With the settings that were loaded.
  unfoldable pub make : Settings → Program a
  make settings = record {
    settings = settings;
    connection = initial a;
    reader =
        State.make settings.max_buffered_messages settings.max_fatal_retries
          settings.max_read_write_retries settings.read_time_out_ms settings.write_time_out_ms;
    success = false;
    usb_success = false;
  }

module _ {a : Addresses} where
  -- `((!lUSBSuccess) || (!lSuccess)) && gRunning`
  abbrev pub goes_on : Program a → Bool → Bool
  goes_on p running = (not p.usb_success || not p.success) && running

  -- `stoi` and the parsing of the address throw out of the program.
  unfoldable pub try_connection : Program a → Events → Result (Program a)
  try_connection p e =
      if p.success
      then ok p
      else (stoi p.settings.xlink_port >>= λ port.
          open_socket p.connection p.settings.xlink_ip port e.open_fails >>= λ (c, opened).
          ok (record p {
            connection = if opened then c else (Connection.close c true e.send_fails).0;
            success = opened;
          }))

  -- `join` is the wait for the reader's thread, and `none` a wait without end.
  unfoldable pub try_device : (Reader → Option Reader) → Program a → Events → Option (Program a)
  try_device join p e =
      if p.usb_success
      then some p
      else (let (r, opened, calls) = open_device p.reader e.devices in
          if opened
          then some (record p { reader = r; usb_success = true })
          else (elim (Control.close join r) [
            | none ↦ none
            | some r' ↦ some (record p { reader = r'; usb_success = false })
          ]))

  -- One pass of the loop.
  unfoldable pub pass : (Reader → Option Reader) → Program a → Events → Result (Option (Program a))
  pass join p e = try_connection p e >>= λ p'. ok (try_device join p' e)

  -- The loop, with what happens in its passes; the condition is tested with the event of the pass that
  -- it would start. A list that ends before the loop does is too little fuel.
  unfoldable pub run :
      (Reader → Option Reader) → Program a → List Events → Result (Option (Program a))
  run join p [] = err out_of_fuel
  run join p (e ∷ es) = elim (goes_on p e.running) [
    | false ↦ ok (some p)
    | true ↦ pass join p e >>= λ p'. (elim p' [ none ↦ ok none | some p'' ↦ run join p'' es ])
  ]

  -- The threads are started; the reader's only if the connection's was.
  unfoldable pub start : Program a → Program a
  start p =
      let (c, c_started) = Receive.start_receiver_thread (set_incoming_connection p.connection) in
      let (r, r_started) =
        if c_started then Control.start_receiver_thread p.reader else (p.reader, false) in
      record p {
        connection = c;
        reader = r;
        settings = record p.settings {
          engine_status =
              if r_started then Model.EngineStatus.running else Model.EngineStatus.error;
        };
      }

  -- Both sides are closed at the end.
  unfoldable pub finish : (Reader → Option Reader) → Program a → Bool → Option (Program a)
  finish join p send_fails = elim (Control.close join p.reader) [
    | none ↦ none
    | some r ↦
        some
          (record p { reader = r; connection = (Connection.close p.connection true send_fails).0 })
  ]
