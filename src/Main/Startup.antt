-- ===== src/Main/Startup.antt =====
-- The flags of `main` from one pass of its loop to the next, and the start of the threads.
use cwusb.Base.{
  ◌≡◌, refl, sym, ◌∙◌, ◌⊎◌, inl, inr, true, false, List, [], ◌∷◌, ◌++◌, Option, none, some, Bytes,
  Fault, ok, err, invalid_argument, out_of_range, bad_address, ◌==◌, Bool-cases, Result-cases,
  arith,
}
use cwusb.Settings.Numbers.{stoi, signed, skip_space, magnitude, positive, negative}
use cwusb.Settings.Model
use cwusb.Settings.Model.{Settings}
use cwusb.Reader.State
use cwusb.Reader.State.{Reader}
use cwusb.Reader.Device.{Device, handle_close, open_device}
use cwusb.Reader.Control
use cwusb.XLinkKai.Connection.{Addresses, initial, open_socket, set_incoming_connection}
use cwusb.XLinkKai.Receive
use cwusb.Main.{Program, Events, make, goes_on, try_connection, try_device, pass, run, start}

-- The flags tell the truth, and no thread of the reader runs yet.
pub record IsHonest {a : Addresses} (p : Program a) : Type 0 where
  pub connection : (p.success ≡ false) ⊎ (p.connection.is_open ≡ true)
  pub device : (p.usb_success ≡ false) ⊎ (Control.has_device p.reader ≡ true)
  pub no_thread : p.reader.usb_thread ≡ false
  pub no_threads : p.reader.has_threads ≡ false

-- What `stoi` and the parsing of an address throw.
abbrev pub IsThrown : Fault → Type 0
IsThrown f = (f ≡ invalid_argument) ⊎ ((f ≡ out_of_range) ⊎ (f ≡ bad_address))

magnitude-IsThrown : (s : Bytes) {f : Fault} → magnitude s ≡ err f → f ≡ invalid_argument
unfolding magnitude
magnitude-IsThrown s thrown = ground (arith, thrown)

positive-IsThrown : (s : Bytes) {f : Fault} → positive (magnitude s) ≡ err f → IsThrown f
positive-IsThrown s thrown = elim (Result-cases (magnitude s)) [
  | inl (n, reads) ↦ inr (inl (ground (arith, reads, thrown)))
  | inr (g, fails) ↦ inl (ground (arith, fails, thrown, magnitude-IsThrown s fails))
]

negative-IsThrown : (s : Bytes) {f : Fault} → negative (magnitude s) ≡ err f → IsThrown f
negative-IsThrown s thrown = elim (Result-cases (magnitude s)) [
  | inl (n, reads) ↦ inr (inl (ground (arith, reads, thrown)))
  | inr (g, fails) ↦ inl (ground (arith, fails, thrown, magnitude-IsThrown s fails))
]

signed-IsThrown : (s : Bytes) {f : Fault} → signed s ≡ err f → IsThrown f
signed-IsThrown [] thrown = inl (ground (arith, thrown))
signed-IsThrown (c ∷ s) {f} thrown = elim (Bool-cases (c == b'-')) [
  | inl minus ↦ negative-IsThrown s (ground (arith, minus, thrown))
  | inr other ↦ elim (Bool-cases (c == b'+')) [
    | inl plus ↦ positive-IsThrown s (ground (arith, other, plus, thrown))
    | inr digit ↦ positive-IsThrown (c ∷ s) (ground (arith, other, digit, thrown))
  ]
]

stoi-IsThrown : (s : Bytes) {f : Fault} → stoi s ≡ err f → IsThrown f
unfolding stoi
stoi-IsThrown s thrown = signed-IsThrown (skip_space s) thrown

open_device-keeps :
    (r : Reader) (devices : Option (List Device))
    → ((open_device r devices).1 ≡ Control.has_device (open_device r devices).0)
      × ((open_device r devices).0.usb_thread ≡ r.usb_thread)
      × ((open_device r devices).0.has_threads ≡ r.has_threads)
unfolding open_device
open_device-keeps r none = (refl, refl, refl)
open_device-keeps r (some devices) = (refl, refl, refl)

close-keeps :
    (join : Reader → Option Reader) (r : Reader)
    → r.usb_thread ≡ false
    → r.has_threads ≡ false
    → (r' : Reader) × (Control.close join r ≡ some r')
      × (r'.usb_thread ≡ false)
      × (r'.has_threads ≡ false)
unfolding Control.close Control.stop_threads handle_close
close-keeps join r no_thread no_threads =
    ((handle_close (record r { stop_request = true })).0, ground arith, ground arith, ground arith)

module _ {a : Addresses} (join : Reader → Option Reader) where
  try_connection-IsHonest :
      (p p' : Program a) (e : Events) → try_connection p e ≡ ok p' → IsHonest p → IsHonest p'
  unfolding try_connection open_socket
  try_connection-IsHonest p p' e h v = ground arith

  try_connection-IsThrown :
      (p : Program a) (e : Events) {f : Fault} → try_connection p e ≡ err f → IsThrown f
  unfolding try_connection open_socket
  try_connection-IsThrown p e h = elim (Bool-cases p.success) [
    | inl done ↦ absurd (ground (arith, done, h))
    | inr todo ↦ elim (Result-cases (stoi p.settings.xlink_port)) [
      | inl (port, reads) ↦ inr (inr (ground (arith, todo, reads, h)))
      | inr (g, fails) ↦ stoi-IsThrown p.settings.xlink_port (ground (arith, todo, fails, h))
    ]
  ]

  try_device-IsHonest :
      (p : Program a) (e : Events)
      → IsHonest p
      → (p' : Program a) × (try_device join p e ≡ some p') × IsHonest p'
  unfolding try_device
  try_device-IsHonest p e v = elim (Bool-cases p.usb_success) [
    | inl done ↦ (p, ground arith, v)
    | inr todo ↦
        let (r, opened, calls) = open_device p.reader e.devices in
        let (truth, thread, threads) = open_device-keeps p.reader e.devices in
        let no_thread : r.usb_thread ≡ false = thread ∙ v.no_thread in
        let no_threads : r.has_threads ≡ false = threads ∙ v.no_threads in
        elim (Bool-cases opened) [
          | inl found ↦ (
            record p { reader = r; usb_success = true },
            ground arith,
            record {
              connection = v.connection;
              device = inr (sym truth ∙ found);
              no_thread = no_thread;
              no_threads = no_threads;
            },
          )
          | inr missing ↦
              let (r', closes, thread', threads') = close-keeps join r no_thread no_threads in
              (
                record p { reader = r'; usb_success = false },
                ground (arith, closes),
                record {
                  connection = v.connection;
                  device = inl refl;
                  no_thread = thread';
                  no_threads = threads';
                },
              )
        ]
  ]

  -- Each pass either throws or ends with the flags telling the truth.
  pass-IsHonest :
      (p : Program a) (e : Events)
      → IsHonest p
      → ((p' : Program a) × (pass join p e ≡ ok (some p')) × IsHonest p')
        ⊎ ((f : Fault) × (pass join p e ≡ err f) × IsThrown f)
  unfolding pass
  pass-IsHonest p e v = elim (Result-cases (try_connection p e)) [
    | inr (f, failed) ↦ inr (f, ground (arith, failed), try_connection-IsThrown p e failed)
    | inl (p₁, tried) ↦
        let (p₂, opened, w) = try_device-IsHonest p₁ e (try_connection-IsHonest p p₁ e tried v) in
        inl (p₂, ground (arith, tried, opened), w)
  ]

  -- Whatever ends the loop leaves the flags telling the truth.
  run-IsHonest :
      (es : List Events) (p : Program a) {p' : Program a}
      → IsHonest p
      → run join p es ≡ ok (some p')
      → IsHonest p'
  unfolding run
  run-IsHonest [] p v ran = absurd (ground (arith, ran))
  run-IsHonest (e ∷ es) p {p'} v ran = elim (Bool-cases (goes_on p e.running)) [
    | inr stops ↦ let same : p ≡ p' = ground (arith, stops, ran) in rw same at v
    | inl goes ↦ elim (pass-IsHonest p e v) [
      | inr (f, failed, thrown) ↦ absurd (ground (arith, goes, failed, ran))
      | inl (p₁, passed, w) ↦ run-IsHonest es p₁ w (ground (arith, goes, passed, ran))
    ]
  ]

  run-ends :
      (before : List Events) (last : Events) (behind : List Events) (p : Program a)
      → last.running ≡ false
      → IsHonest p
      → ((p' : Program a) × (run join p (before ++ (last ∷ behind)) ≡ ok (some p')))
        ⊎ ((f : Fault) × (run join p (before ++ (last ∷ behind)) ≡ err f) × IsThrown f)
  unfolding run
  run-ends [] last behind p off v = inl (p, ground (arith, off))
  run-ends (e ∷ before) last behind p off v = elim (Bool-cases (goes_on p e.running)) [
    | inr stops ↦ inl (p, ground (arith, stops))
    | inl goes ↦ elim (pass-IsHonest p e v) [
      | inr (f, failed, thrown) ↦ inr (f, ground (arith, goes, failed), thrown)
      | inl (p₁, passed, w) ↦ elim (run-ends before last behind p₁ off w) [
        | inl (p₂, ran) ↦ inl (p₂, ground (arith, goes, passed, ran))
        | inr (f, failed, thrown) ↦ inr (f, ground (arith, goes, passed, failed), thrown)
      ]
    ]
  ]

  make-IsHonest : (settings : Settings) → IsHonest (make a settings)
  unfolding make initial State.make
  make-IsHonest settings = record {
    connection = inl refl;
    device = inl refl;
    no_thread = refl;
    no_threads = refl;
  }

  start-running :
      (p : Program a)
      → IsHonest p
      → p.success ≡ true
      → p.usb_success ≡ true
      → ((start p).settings.engine_status ≡ Model.EngineStatus.running)
        × ((start p).connection.receiver_thread ≡ true)
        × ((start p).reader.usb_thread ≡ true)
  unfolding start Receive.start_receiver_thread Control.start_receiver_thread
      set_incoming_connection
  start-running p v opened usb_opened = ground arith

  -- The loop of `main`, from the start with any settings, ends once the program is told to stop, if
  -- not before: whatever happens in the passes `before`, it has ended after them at the latest, or
  -- the text of the port or of the address has made it throw. It neither goes on for longer nor
  -- waits without end for a thread.
  pub run-returns :
      (settings : Settings) (before : List Events) (last : Events) (behind : List Events)
      → last.running ≡ false
      → ((p : Program a) × (run join (make a settings) (before ++ (last ∷ behind)) ≡ ok (some p)))
        ⊎ ((f : Fault) × (run join (make a settings) (before ++ (last ∷ behind)) ≡ err f)
            × IsThrown f)
  run-returns settings before last behind off =
      run-ends before last behind (make a settings) off (make-IsHonest settings)

  -- When the loop of `main`, from the start with any settings, ends with both sides open, both
  -- threads start, and the engine's status is that it runs.
  pub run-starts :
      (settings : Settings) (es : List Events) (p : Program a)
      → run join (make a settings) es ≡ ok (some p)
      → p.success ≡ true
      → p.usb_success ≡ true
      → ((start p).settings.engine_status ≡ Model.EngineStatus.running)
        × ((start p).connection.receiver_thread ≡ true)
        × ((start p).reader.usb_thread ≡ true)
  run-starts settings es p ran opened usb_opened =
      start-running p (run-IsHonest es (make a settings) (make-IsHonest settings) ran) opened
        usb_opened
