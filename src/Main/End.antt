-- ===== src/Main/End.antt =====
-- The end of `main`, and the whole of it.
use cwusb.Base.{
  ℕ, suc, ◌≡◌, refl, Bool, true, false, ◌||◌, List, Option, none, some, Bytes, Result, ok, ◌>>=◌,
  Bool-cases, inl, inr, arith,
}
use cwusb.Settings.Model
use cwusb.Reader.State.{Reader}
use cwusb.Reader.Loop
use cwusb.Reader.Loop.{ErrorCodes}
use cwusb.Reader.Control
use cwusb.Reader.Threads.{IsStoppable}
use cwusb.Reader.Unplugged.{Queues}
use cwusb.Reader.Closing.{joined, IsClosed, StayStoppable, WillEnd, close-IsClosed}
use cwusb.XLinkKai.Connection
use cwusb.XLinkKai.Connection.{Addresses, Connection, say_goodbye, send}
use cwusb.Main.{Program, Events, make, run, start, finish}
use cwusb.Main.Surroundings.{prepare}

-- `gRunning` is asked once a second while both sides work: `works` is what their threads make of
-- the program until it is false.
unfoldable pub wait : {a : Addresses} → (Program a → Program a) → Program a → Program a
wait works p = elim p.settings.engine_status [ Model.EngineStatus.running ↦ works p | _ ↦ p ]

-- `main`
unfoldable pub main_program :
    (a : Addresses)
    → (Reader → Option Reader)
    → Option Bytes
    → (Bytes → Option Bytes)
    → Bool
    → List Events
    → (Program a → Program a)
    → Bool
    → Result (Option (Program a))
main_program a join resolved files log_fails es works send_fails =
    run join (make a (prepare resolved files log_fails).0) es >>= λ opened. (elim opened [
      | none ↦ ok none
      | some p ↦ ok (finish join (wait works (start p)) send_fails)
    ])

-- The connection after `Close`.
pub record IsShut {a : Addresses} (c : Connection a) : Type 0 where
  pub socket : c.is_open ≡ false
  pub thread : c.receiver_thread ≡ false
  pub connected : c.connected ≡ false
  pub connect_initiated : c.connect_initiated ≡ false

module _ {a : Addresses} where
  close-IsShut : (c : Connection a) (fails : Bool) → IsShut (Connection.close c true fails).0
  unfolding Connection.close say_goodbye
  close-IsShut c fails = elim (Bool-cases (c.connected || c.connect_initiated)) [
    | inl talks ↦ record {
      socket = refl;
      thread = refl;
      connected = ground (arith, talks);
      connect_initiated = ground (arith, talks);
    }
    | inr silent ↦ record {
      socket = refl;
      thread = refl;
      connected = ground (arith, silent);
      connect_initiated = ground (arith, silent);
    }
  ]

  finish-closed :
      (join : Reader → Option Reader) (p : Program a) (fails : Bool) {r' : Reader}
      → Control.close join p.reader ≡ some r'
      → finish join p fails
        ≡ some (record p { reader = r'; connection = (Connection.close p.connection true fails).0 })
  unfolding finish
  finish-closed join p fails closes = ground (arith, closes)

  -- The end of `main` is reached and leaves nothing behind, whatever the other threads make of the
  -- reader's queues until then, as long as they keep their own flags, if the reader's threads run
  -- as `StartReceiverThread` leaves them, and no restart of the device is counted and its thread
  -- makes one more pass, or restarts are counted, the PSP is gone, the thread has noticed or will
  -- with its next read, and makes a pass for each restart left and three more: the device is
  -- closed, no thread is left on either side, the receive thread's queue and both of the send
  -- thread's are empty, and the connection is taken down and its socket closed, whether its last
  -- datagram could be sent or not. For a PSP that is gone, the limit of restarts is below 2^31 and
  -- not passed, and libusb's codes differ from -1.
  pub finish-closes :
      (codes : ErrorCodes) (events : ℕ → Loop.Events) (others : ℕ → Queues) (n : ℕ) (p : Program a)
      (fails : Bool)
      → p.reader.usb_thread ≡ true
      → IsStoppable p.reader
      → StayStoppable others
      → WillEnd codes n events p.reader
      → (p' : Program a) × (finish (joined codes (suc n) events others) p fails ≡ some p')
        × IsClosed p'.reader
        × IsShut p'.connection
  finish-closes codes events others n p fails on s stay ends =
      let (r', closes, c) = close-IsClosed codes events others n p.reader on s stay ends in
      (
        _,
        finish-closed (joined codes (suc n) events others) p fails closes,
        c,
        close-IsShut p.connection fails,
      )
