-- ===== src/ReceiveThread/Interleaving.antt =====
-- `USBReceiveThread` with the reader's and its own thread in any order of steps.
use cwusb.Base.{
  ◌+◌, ◌≡◌, refl, sym, ap, ◌∙◌, ◌⊎◌, inl, inr, true, false, List, [], ◌∷◌, ◌++◌, append-nil,
  append_assoc, Option, none, some, Bytes, take, ok, leb, Bool-cases, arith,
}
use cwusb.Usb.{StitchPacket, max_asynchronous_buffer}
use cwusb.ReceiveThread.{ReceiveThread, run_once, with_sent, add_to_queue}
use cwusb.ReceiveThread.Message.{IsUsbPacket, AllUsb, AllUsb-append, IsMessage, contents}
use cwusb.ReceiveThread.Reassembly.{
  assemble, Passed, run_once_room, run_once-overflows, assemble-Passed,
}

-- The steps that lead from one state to another: the packets that were accepted on the way, and the
-- messages that were sent.
pub data Runs (start : ReceiveThread)
    : List StitchPacket → List Bytes → ReceiveThread → Type 0 where
  begin : Runs start [] [] start
  accept :
      {ps : List StitchPacket} {ms : List Bytes} {t t' : ReceiveThread} (p : StitchPacket)
      → Runs start ps ms t
      → add_to_queue t p ≡ (t', true)
      → Runs start (ps ++ (p ∷ [])) ms t'
  refuse :
      {ps : List StitchPacket} {ms : List Bytes} {t t' : ReceiveThread} (p : StitchPacket)
      → Runs start ps ms t
      → add_to_queue t p ≡ (t', false)
      → Runs start ps ms t'
  pass :
      {ps : List StitchPacket} {ms : List Bytes} {t t' : ReceiveThread} {sent : Option Bytes}
      → Runs start ps ms t
      → run_once t ≡ ok (t', sent)
      → Runs start ps (ms ++ with_sent sent []) t'

-- Whatever comes later, the messages are those of all accepted packets.
record Assembles (ps : List StitchPacket) (ms : List Bytes) (t : ReceiveThread) : Type 0 where
  message : IsMessage t.last_received_message
  packets : AllUsb t.queue
  all :
      (later : List StitchPacket)
      → ms ++ assemble (contents t.last_received_message) (t.queue ++ later)
        ≡ assemble [] (ps ++ later)

pub with_sent-append :
    (sent : Option Bytes) (ms : List Bytes) → with_sent sent [] ++ ms ≡ with_sent sent ms
with_sent-append none ms = refl
with_sent-append (some m) ms = refl

AllUsb-last :
    (ps : List StitchPacket) (p : StitchPacket)
    → AllUsb (ps ++ (p ∷ []))
    → AllUsb ps × IsUsbPacket p
AllUsb-last [] p (u, _) = (tt, u)
AllUsb-last (q ∷ ps) p (v, us) = let (vs, u) = AllUsb-last ps p us in ((v, vs), u)

accepted :
    (t t' : ReceiveThread) (p : StitchPacket)
    → add_to_queue t p ≡ (t', true)
    → t' ≡ record t { queue = t.queue ++ (p ∷ []) }
unfolding add_to_queue
accepted t t' p e = ground arith

refused : (t t' : ReceiveThread) (p : StitchPacket) → add_to_queue t p ≡ (t', false) → t' ≡ t
unfolding add_to_queue
refused t t' p e = ground arith

accept-Assembles :
    {ps : List StitchPacket} {ms : List Bytes} {t : ReceiveThread} (p : StitchPacket)
    → IsUsbPacket p
    → Assembles ps ms t
    → Assembles (ps ++ (p ∷ [])) ms (record t { queue = t.queue ++ (p ∷ []) })
accept-Assembles {ps} {ms} {t} p u a = record {
  message = a.message;
  packets = AllUsb-append t.queue p a.packets u;
  all = λ later.
      ap (λ q. ms ++ assemble (contents t.last_received_message) q)
        (append_assoc t.queue (p ∷ []) later)
      ∙ a.all (p ∷ later)
      ∙ ap (assemble []) (sym (append_assoc ps (p ∷ []) later));
}

pub idle_pass :
    (t t' : ReceiveThread) {sent : Option Bytes}
    → t.queue ≡ []
    → run_once t ≡ ok (t', sent)
    → (t ≡ t') × (sent ≡ none)
unfolding run_once
idle_pass t t' empty e = ground arith

-- A pass over a packet that did not leave the buffer.
pub busy_pass :
    (t t' : ReceiveThread) (p : StitchPacket) (rest : List StitchPacket) {sent : Option Bytes}
    → t.queue ≡ p ∷ rest
    → IsMessage t.last_received_message
    → IsUsbPacket p
    → run_once t ≡ ok (t', sent)
    → Passed t p rest t' sent
busy_pass t t' p rest {sent} front v u e =
    elim (Bool-cases (leb (t.last_received_message.length + p.length) max_asynchronous_buffer)) [
      | inr big ↦
          let over = run_once-overflows t p rest front v u (ground arith) in
          absurd (ground (arith, e, over))
      | inl room ↦
          let (t₁, sent₁, x) = run_once_room t p rest front v u (ground arith) in
          let same : (t₁ ≡ t') × (sent₁ ≡ sent) = ground (arith, e, x.pass) in
          rw (← same.0, ← same.1) x
    ]

pub queue-cases :
    (q : List StitchPacket)
    → (q ≡ []) ⊎ ((p : StitchPacket) × (rest : List StitchPacket) × (q ≡ p ∷ rest))
queue-cases [] = inl refl
queue-cases (p ∷ rest) = inr (p, rest, refl)

after_pass :
    {ps : List StitchPacket} {ms : List Bytes} {t t' : ReceiveThread} (p : StitchPacket)
    (rest : List StitchPacket) {sent : Option Bytes}
    → t.queue ≡ p ∷ rest
    → AllUsb rest
    → Passed t p rest t' sent
    → Assembles ps ms t
    → Assembles ps (ms ++ with_sent sent []) t'
after_pass {ps} {ms} {t} {t'} p rest {sent} front us x a = record {
  message = x.message;
  packets = rw x.queue us;
  all = λ later.
      append_assoc ms (with_sent sent [])
        (assemble (contents t'.last_received_message) (t'.queue ++ later))
      ∙ ap (λ m. ms ++ m)
          (with_sent-append sent (assemble (contents t'.last_received_message) (t'.queue ++ later)))
      ∙ ap (λ q. ms ++ with_sent sent (assemble (contents t'.last_received_message) (q ++ later)))
          x.queue
      ∙ ap (λ m. ms ++ m) (assemble-Passed p (rest ++ later) x)
      ∙ ap (λ q. ms ++ assemble (contents t.last_received_message) (q ++ later)) (sym front)
      ∙ a.all later;
}

pass-Assembles :
    {ps : List StitchPacket} {ms : List Bytes} {t t' : ReceiveThread} {sent : Option Bytes}
    → run_once t ≡ ok (t', sent)
    → Assembles ps ms t
    → Assembles ps (ms ++ with_sent sent []) t'
pass-Assembles {ps} {ms} {t} {t'} {sent} e a = elim (queue-cases t.queue) [
  | inl empty ↦
      let (same, nothing) = idle_pass t t' empty e in rw (← same, nothing, append-nil ms) a
  | inr (p, rest, front) ↦
      let us : AllUsb (p ∷ rest) = rw front at (a.packets) in
      after_pass p rest front us.1 (busy_pass t t' p rest front a.message us.0 e) a
]

Runs-Assembles :
    {start t : ReceiveThread} {ps : List StitchPacket} {ms : List Bytes}
    → Assembles [] [] start
    → Runs start ps ms t
    → AllUsb ps
    → Assembles ps ms t
Runs-Assembles a begin us = a
Runs-Assembles a (accept {ps} {ms} {t} {t'} p runs e) us =
    let (vs, u) = AllUsb-last ps p us in
    rw (accepted t t' p e) (accept-Assembles p u (Runs-Assembles a runs vs))
Runs-Assembles a (refuse {ps} {ms} {t} {t'} p runs e) us =
    rw (refused t t' p e) (Runs-Assembles a runs us)
Runs-Assembles a (pass runs e) us = pass-Assembles e (Runs-Assembles a runs us)

-- In whatever order the reader adds well-formed packets and the receive thread makes its passes,
-- from an empty queue and an empty message on and with no fault on the way, the messages that were
-- sent, followed by those that the queue still holds, are the messages of the accepted packets: none
-- is lost, doubled, mixed up or reordered.
pub Runs-assemble :
    (start t : ReceiveThread) (ps : List StitchPacket) (ms : List Bytes)
    → start.queue ≡ []
    → IsMessage start.last_received_message
    → start.last_received_message.length ≡ 0
    → Runs start ps ms t
    → AllUsb ps
    → ms ++ assemble (contents t.last_received_message) t.queue ≡ assemble [] ps
Runs-assemble start t ps ms empty v nothing runs us =
    let blank : contents start.last_received_message ≡ [] =
      ap (λ n. take n start.last_received_message.bytes) nothing in
    let first : Assembles [] [] start = record {
      message = v;
      packets = rw empty tt;
      all = λ later.
          ap (λ b. assemble b (start.queue ++ later)) blank
          ∙ ap (λ q. assemble [] (q ++ later)) empty;
    } in
    let last = (Runs-Assembles first runs us).all [] in
    ap (λ q. ms ++ assemble (contents t.last_received_message) q) (sym (append-nil t.queue))
    ∙ last
    ∙ ap (assemble []) (append-nil ps)
