-- ===== src/Bridge/Together.antt =====
-- What stays true while the threads of both directions work together.
use mathlib.Core.Path.{subst⁻¹}
use cwusb.Base.{
  ℕ, ◌≡◌, refl, sym, ap, ap₂, Bool, true, false, List, [], ◌∷◌, ◌++◌, append_assoc, Bytes, Option,
  ok, arith, take,
}
use cwusb.ReceiveThread
use cwusb.ReceiveThread.{ReceiveThread}
use cwusb.ReceiveThread.Message.{contents}
use cwusb.ReceiveThread.Pending.{left}
use cwusb.SendThread
use cwusb.SendThread.{SendThread}
use cwusb.SendThread.Frames.{none_left}
use cwusb.Reader.State.{Reader}
use cwusb.Reader.Transfers.{Write}
use cwusb.Reader.Loop
use cwusb.Reader.Loop.{ErrorCodes}
use cwusb.Reader.Delivery.{read_of}
use cwusb.Reader.Reading.{IsReading}
use cwusb.Reader.Running.{IsQuiet}
use cwusb.Reader.Reads.{HasRoom}
use cwusb.Reader.Sending.{IsTaken}
use cwusb.Reader.Unplugged.{Queues}
use cwusb.XLinkKai.Connection.{Addresses, Connection, Output}
use cwusb.Bridge.Frames.{PspStreams, IsIdle}
use cwusb.Bridge.Awaiting.{Awaits, between}
use cwusb.Bridge.Passes.{
  Awaits-with_queues, with_queues-IsReading, Wrote, pass-Advanced, pass-quiet,
}
use cwusb.Bridge.Receives.{Receives, pending, queued-Receives, run_once-Receives}
use cwusb.Bridge.Emits.{Emits, run_once-Emits, Wrote-Emits, Handed-Emits}
use cwusb.Bridge.System.{System, Handed, given, Runs, begin, read, quiet, receive, cut, talk}

-- Nothing waits on either side, and the reader is between two frames, without errors.
pub record IsReady {a : Addresses} (s : System a) : Type 0 where
  pub reading : IsReading s.reader
  pub between_frames : s.reader.receive_stitching ≡ false
  pub receives : IsIdle s.reader.receive_thread
  pub no_frames : s.reader.send_thread.queue ≡ []
  pub no_packets : s.reader.send_thread.outgoing_queue ≡ []

-- Of the PSP's frames `frames` those that were sent, those that wait and those that are still to come
-- in the packets `later`; and what became of the frames `taken` of XLink Kai's.
pub record Works {a : Addresses} (frames later taken : List Bytes) (writes : List Write)
    (out : List (Output a)) (s : System a) : Type 0 where
  pub reading : IsReading s.reader
  pub others : List Bytes
  pub awaits : Awaits s.reader (pending s.reader.receive_thread) others later
  pub receives : Receives frames others out s.reader.receive_thread
  pub emits : Emits taken writes s.reader.send_thread

module _ {a : Addresses} (s : System a) {frames : List Bytes} where
  ready-Works : {ws : List Bytes} → IsReady s → PspStreams frames ws → Works frames ws [] [] [] s
  ready-Works {ws} i sends =
      let t : ReceiveThread = s.reader.receive_thread in
      let blank : contents t.last_received_message ≡ [] =
        ap (λ n. take n t.last_received_message.bytes) i.receives.no_bytes in
      let nothing : pending t ≡ [] = ap₂ left blank i.receives.no_packets in
      let waits : Awaits s.reader [] frames ws = between i.between_frames sends in
      record {
        reading = i.reading;
        others = frames;
        awaits = rw (sym nothing) at waits;
        receives = record {
          message = i.receives.message;
          fits = rw i.receives.no_packets tt;
          running = i.receives.running;
          sent = [];
          output = refl;
          total = rw i.receives.no_packets refl;
        };
        emits = record {
          popped = [];
          written = refl;
          cuts = record {
            waiting = rw i.no_frames tt;
            done = [];
            order = rw i.no_frames refl;
            streams = rw i.no_packets none_left;
          };
          whole = rw i.no_packets refl;
        };
      }

module _ (codes : ErrorCodes) (r : Reader) (e : Loop.Events) where
  same_pass :
      {r₁ r' r'' : Reader} {writes writes' : List Write}
      → Loop.pass codes r e ≡ ok (r', writes)
      → Loop.pass codes r e ≡ ok (r'', writes')
      → Wrote r₁ r'' writes'
      → Wrote r₁ r' writes
  same_pass {r₁} {r'} {r''} {writes} {writes'} p q x =
      let same : (r'' ≡ r') × (writes' ≡ writes) = ground (arith, p, q) in rw (← same.0, ← same.1) x

module _ {a : Addresses} {frames later taken : List Bytes} {writes : List Write}
    {out : List (Output a)} (codes : ErrorCodes) (s : System a) where
  -- What the reader's pass pops and writes.
  written-Works :
      {r₁ r' : Reader} {wrote : List Write}
      → Wrote r₁ r' wrote
      → Works frames later taken writes out (record s { reader = r₁ })
      → Works frames later taken (writes ++ wrote) out (record s { reader = r' })
  written-Works {r₁} {r'} {wrote} x i =
      let emits = Wrote-Emits x i.emits in
      let queues : Queues =
        (record r₁.send_thread { outgoing_queue = x.kept }, r₁.receive_thread) in
      rw x.after (record {
        reading = with_queues-IsReading r₁ queues i.reading;
        others = i.others;
        awaits = Awaits-with_queues r₁ queues i.awaits;
        receives = i.receives;
        emits = rw x.after at emits;
      })

  -- A pass that reads the next packet.
  read-Works :
      {r' : Reader} {w : Bytes} {wrote : List Write} (e : Loop.Events)
      → Loop.pass codes s.reader e ≡ ok (r', wrote)
      → e.read ≡ read_of w
      → ((j : ℕ) → IsTaken (e.writes j))
      → HasRoom s.reader.receive_thread 1
      → Works frames (w ∷ later) taken writes out s
      → Works frames later taken (writes ++ wrote) out (record s { reader = r' })
  read-Works e passes reads takes room i =
      let (r₁, r'', wrote', passes', x, v₁, same, y) =
        pass-Advanced codes s.reader e i.reading i.emits.whole takes i.awaits reads in
      let (receives, awaits) = queued-Receives room i.receives x in
      written-Works (same_pass codes s.reader e passes passes' y) (record {
        reading = v₁;
        others = x.others;
        awaits = awaits;
        receives = receives;
        emits = rw same i.emits;
      })

  quiet-Works :
      {r' : Reader} {wrote : List Write} (e : Loop.Events)
      → Loop.pass codes s.reader e ≡ ok (r', wrote)
      → IsQuiet codes e.read
      → ((j : ℕ) → IsTaken (e.writes j))
      → Works frames later taken writes out s
      → Works frames later taken (writes ++ wrote) out (record s { reader = r' })
  quiet-Works e passes waits takes i =
      let (r'', wrote', passes', y) =
        pass-quiet codes s.reader e i.reading i.emits.whole takes waits in
      written-Works (same_pass codes s.reader e passes passes' y) i

  receive-Works :
      {t : ReceiveThread} {sent : Option Bytes} {fails : Bool}
      → s.connection.connected ≡ true
      → s.connection.is_open ≡ true
      → fails ≡ false
      → ReceiveThread.run_once s.reader.receive_thread ≡ ok (t, sent)
      → Works frames later taken writes out s
      → Works frames later taken writes (out ++ (given s.connection sent fails).1) (record {
        reader = record s.reader { receive_thread = t };
        connection = (given s.connection sent fails).0;
      })
  receive-Works {t} up opened works e i =
      let queues : Queues = (s.reader.send_thread, t) in
      let (receives, same) =
        run_once-Receives s.connection up opened works s.reader.receive_thread t e i.receives in
      let awaits = Awaits-with_queues s.reader queues i.awaits in
      record {
        reading = with_queues-IsReading s.reader queues i.reading;
        others = i.others;
        awaits = rw (sym same) at awaits;
        receives = receives;
        emits = i.emits;
      }

  cut-Works :
      {t : SendThread}
      → SendThread.run_once s.reader.send_thread ≡ ok t
      → Works frames later taken writes out s
      → Works frames later taken writes out
          (record s { reader = record s.reader { send_thread = t } })
  cut-Works {t} e i =
      let queues : Queues = (t, s.reader.receive_thread) in
      record {
        reading = with_queues-IsReading s.reader queues i.reading;
        others = i.others;
        awaits = Awaits-with_queues s.reader queues i.awaits;
        receives = i.receives;
        emits = run_once-Emits s.reader.send_thread t e i.emits;
      }

  talk-Works :
      {r' : Reader} {c' : Connection a} {outs : List (Output a)} {more : List Bytes}
      → Handed s.reader outs more r'
      → Works frames later taken writes out s
      → Works frames later (taken ++ more) writes out (record { reader = r'; connection = c' })
  talk-Works {r'} handed i =
      let (emits, after) = Handed-Emits handed i.emits in
      let queues : Queues = (r'.send_thread, s.reader.receive_thread) in
      let same : r'.receive_thread ≡ s.reader.receive_thread = ap (λ x. x.receive_thread) after in
      let awaits : Awaits r' (pending s.reader.receive_thread) i.others later =
        subst⁻¹ (λ x. Awaits x (pending s.reader.receive_thread) i.others later) after
          (Awaits-with_queues s.reader queues i.awaits) in
      record {
        reading = subst⁻¹ IsReading after (with_queues-IsReading s.reader queues i.reading);
        others = i.others;
        awaits = subst⁻¹ (λ t. Awaits r' (pending t) i.others later) same awaits;
        receives = rw (ap (λ x. x.receive_thread) after) i.receives;
        emits = emits;
      }

pub Runs-Works :
    {a : Addresses} (codes : ErrorCodes) {start s : System a} {ws taken frames : List Bytes}
    {writes : List Write} {out : List (Output a)} (later : List Bytes)
    → Runs codes start ws taken writes out s
    → PspStreams frames (ws ++ later)
    → IsReady start
    → Works frames later taken writes out s
Runs-Works codes later begin sends i = ready-Works _ i sends
Runs-Works codes later (read {ws} {s = s} e w runs reads takes room goes passes) sends i =
    read-Works codes s e passes reads takes room
      (Runs-Works codes (w ∷ later) runs (rw (append_assoc ws (w ∷ []) later) at sends) i)
Runs-Works codes later (quiet {s = s} e runs waits takes goes passes) sends i =
    quiet-Works codes s e passes waits takes (Runs-Works codes later runs sends i)
Runs-Works codes later (receive {s = s} runs up opened works e) sends i =
    receive-Works codes s up opened works e (Runs-Works codes later runs sends i)
Runs-Works codes later (cut {s = s} runs e) sends i =
    cut-Works codes s e (Runs-Works codes later runs sends i)
Runs-Works codes later (talk {s = s} e runs passes handed) sends i =
    talk-Works codes s handed (Runs-Works codes later runs sends i)
