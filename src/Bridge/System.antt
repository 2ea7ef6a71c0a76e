-- ===== src/Bridge/System.antt =====
-- The threads of `USBReader`, `USBReceiveThread`, `USBSendThread` and `XLinkKaiConnection` at work
-- together, in any order of their passes.
use cwusb.Base.{◌≡◌, Bool, true, false, List, [], ◌∷◌, ◌++◌, Option, none, some, Bytes, ok, ℕ}
use cwusb.ReceiveThread
use cwusb.ReceiveThread.{ReceiveThread}
use cwusb.SendThread
use cwusb.SendThread.{SendThread}
use cwusb.Reader.State.{Reader}
use cwusb.Reader.Transfers.{Write}
use cwusb.Reader.Loop
use cwusb.Reader.Loop.{ErrorCodes}
use cwusb.Reader.Delivery.{read_of}
use cwusb.Reader.Running.{IsQuiet}
use cwusb.Reader.Reads.{HasRoom}
use cwusb.Reader.Sending.{IsTaken}
use cwusb.XLinkKai.Protocol.{ethernet_data_string}
use cwusb.XLinkKai.Connection.{Addresses, Connection, Output, datagram, to_usb, send_data}
use cwusb.XLinkKai.Loop as Engine

-- The two objects that `main` creates. The reader has the queues of its two threads.
pub record System (a : Addresses) : Type 0 where
  pub reader : Reader
  pub connection : Connection a

-- `mIncomingConnection->Send` for what a pass of the connection's thread hands to the reader: the
-- frames that the send thread's queue takes.
pub data Handed {a : Addresses} : Reader → List (Output a) → List Bytes → Reader → Type 0 where
  all_handed : {r : Reader} → Handed r [] [] r
  own :
      {r r' : Reader} {outs : List (Output a)} {frames : List Bytes} {to : a.Address × ℕ}
      {text : Bytes}
      → Handed r outs frames r'
      → Handed r (datagram to text ∷ outs) frames r'
  accepted :
      {r r' : Reader} {s : SendThread} {outs : List (Output a)} {frames : List Bytes}
      {frame : Bytes}
      → SendThread.add_to_queue r.send_thread frame ≡ ok (s, true)
      → Handed (record r { send_thread = s }) outs frames r'
      → Handed r (to_usb frame ∷ outs) (frame ∷ frames) r'
  refused :
      {r r' : Reader} {s : SendThread} {outs : List (Output a)} {frames : List Bytes}
      {frame : Bytes}
      → SendThread.add_to_queue r.send_thread frame ≡ ok (s, false)
      → Handed (record r { send_thread = s }) outs frames r'
      → Handed r (to_usb frame ∷ outs) frames r'

-- The bytes of a datagram, wherever it is sent to.
abbrev pub datagram_of : {a : Addresses} → Output a → Option Bytes
datagram_of (datagram to bytes) = some bytes
datagram_of (to_usb frame) = none

-- Those of the datagram for a frame.
abbrev pub ethernet_bytes : Bytes → Option Bytes
ethernet_bytes frame = some (ethernet_data_string ++ frame)

-- What a pass of the receive thread gives to the connection; `fails` says whether the socket throws,
-- which `Send` catches: the datagram is lost then.
abbrev pub given :
    {a : Addresses} → Connection a → Option Bytes → Bool → Connection a × List (Output a)
given c none fails = (c, [])
given c (some message) fails = let (c', sent, out) = send_data c message fails in (c', out)

-- The passes that lead from one state to another: the packets that were read from the PSP, the frames
-- of XLink Kai's that the send thread's queue took, what was written to the PSP, and what the receive
-- thread sent to XLink Kai.
module _ {a : Addresses} (codes : ErrorCodes) where
  pub data Runs (start : System a)
      : List Bytes → List Bytes → List Write → List (Output a) → System a → Type 0 where
    begin : Runs start [] [] [] [] start
    read :
        {ws frames : List Bytes} {writes more : List Write} {out : List (Output a)} {s : System a}
        {r' : Reader} (e : Loop.Events) (w : Bytes)
        → Runs start ws frames writes out s
        → e.read ≡ read_of w
        → ((j : ℕ) → IsTaken (e.writes j))
        → HasRoom s.reader.receive_thread 1
        → Loop.goes_on s.reader ≡ true
        → Loop.pass codes s.reader e ≡ ok (r', more)
        → Runs start (ws ++ (w ∷ [])) frames (writes ++ more) out (record s { reader = r' })
    quiet :
        {ws frames : List Bytes} {writes more : List Write} {out : List (Output a)} {s : System a}
        {r' : Reader} (e : Loop.Events)
        → Runs start ws frames writes out s
        → IsQuiet codes e.read
        → ((j : ℕ) → IsTaken (e.writes j))
        → Loop.goes_on s.reader ≡ true
        → Loop.pass codes s.reader e ≡ ok (r', more)
        → Runs start ws frames (writes ++ more) out (record s { reader = r' })
    receive :
        {ws frames : List Bytes} {writes : List Write} {out : List (Output a)} {s : System a}
        {t : ReceiveThread} {sent : Option Bytes} {fails : Bool}
        → Runs start ws frames writes out s
        → s.connection.connected ≡ true
        → s.connection.is_open ≡ true
        → fails ≡ false
        → ReceiveThread.run_once s.reader.receive_thread ≡ ok (t, sent)
        → Runs start ws frames writes (out ++ (given s.connection sent fails).1) (record {
          reader = record s.reader { receive_thread = t };
          connection = (given s.connection sent fails).0;
        })
    cut :
        {ws frames : List Bytes} {writes : List Write} {out : List (Output a)} {s : System a}
        {t : SendThread}
        → Runs start ws frames writes out s
        → SendThread.run_once s.reader.send_thread ≡ ok t
        → Runs start ws frames writes out
            (record s { reader = record s.reader { send_thread = t } })
    talk :
        {ws frames more : List Bytes} {writes : List Write} {out outs : List (Output a)}
        {s : System a} {r' : Reader} {c' : Connection a} (e : Engine.Events a)
        → Runs start ws frames writes out s
        → Engine.pass s.connection e ≡ ok (c', outs)
        → Handed s.reader outs more r'
        → Runs start ws (frames ++ more) writes out (record { reader = r'; connection = c' })
