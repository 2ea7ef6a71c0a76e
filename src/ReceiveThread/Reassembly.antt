-- ===== src/ReceiveThread/Reassembly.antt =====
-- `USBReceiveThread` over its whole queue, and what a sequence of packets means as messages.
use cwusb.Base.{
  ℕ, suc, ◌+◌, ◌≤◌, ◌<◌, ◌≡◌, refl, sym, ap, ◌∙◌, inl, inr, true, false, List, [], ◌∷◌, ◌++◌,
  Option, none, some, Bytes, length, ok, err, out_of_bounds, if◌then◌else◌, Bool-cases, arith,
}
use cwusb.Usb.{StitchPacket, empty_stitch_wifi_packet, max_asynchronous_buffer}
use cwusb.ReceiveThread.{ReceiveThread, run_once, run_passes, with_sent}
use cwusb.ReceiveThread.Message.{
  IsUsbPacket, IsMessage, contents, stitched, stitch_onto-ok, stitch_onto-overflows,
  contents-stitched, length-contents, stitched-IsMessage, send_off-stitched, empty-IsMessage,
}

-- The messages in a sequence of packets, behind the bytes `pending`.
abbrev pub assemble : Bytes → List StitchPacket → List Bytes
assemble pending [] = []
assemble pending (p ∷ ps) = elim p.stitch [
  | true ↦ assemble (pending ++ contents p) ps
  | false ↦ (pending ++ contents p) ∷ assemble [] ps
]

-- No message in the sequence outgrows the buffer.
abbrev pub Fits : Bytes → List StitchPacket → Type 0
Fits pending [] = Unit
Fits pending (p ∷ ps) =
    IsUsbPacket p
    × (length pending + p.length ≤ max_asynchronous_buffer)
    × Fits (if p.stitch then pending ++ contents p else []) ps

-- What a pass leaves in the buffer and sends.
pub record Passed (t : ReceiveThread) (p : StitchPacket) (rest : List StitchPacket)
    (t' : ReceiveThread) (sent : Option Bytes) : Type 0 where
  pub pass : run_once t ≡ ok (t', sent)
  pub queue : t'.queue ≡ rest
  pub stop : t'.stop_request ≡ t.stop_request
  pub message : IsMessage t'.last_received_message
  pub kept :
      contents t'.last_received_message
      ≡ (if p.stitch then contents t.last_received_message ++ contents p else [])
  pub sends :
      sent ≡ (if p.stitch then none else some (contents t.last_received_message ++ contents p))

module _ (t : ReceiveThread) (p : StitchPacket) (rest : List StitchPacket)
    (front : t.queue ≡ p ∷ rest) (v : IsMessage t.last_received_message) (u : IsUsbPacket p) where
  open t use {last_received_message as last}

  pub run_once_room :
      last.length + p.length ≤ max_asynchronous_buffer
      → (t' : ReceiveThread) × (sent : Option Bytes) × Passed t p rest t' sent
  unfolding run_once
  run_once_room room = elim (Bool-cases p.stitch) [
    | inl more ↦ (
      record t { queue = rest; last_received_message = stitched last p v u },
      none,
      record {
        pass = rw (
          front,
          run_once,
          stitch_onto-ok last p v u room,
          send_off-stitched last p v u room,
          more,
        );
        queue = refl;
        stop = refl;
        message = stitched-IsMessage last p v u room more;
        kept = rw more (contents-stitched last p v u room);
        sends = rw more;
      },
    )
    | inr end ↦ (
      record t { queue = rest; last_received_message = empty_stitch_wifi_packet },
      some (contents last ++ contents p),
      record {
        pass = rw (
          front,
          run_once,
          stitch_onto-ok last p v u room,
          send_off-stitched last p v u room,
          end,
        );
        queue = refl;
        stop = refl;
        message = empty-IsMessage;
        kept = rw end;
        sends = rw end;
      },
    )
  ]

  -- A pass over a packet that takes the message beyond 2304 bytes writes past the end of the
  -- message.
  pub run_once-overflows :
      max_asynchronous_buffer < last.length + p.length → run_once t ≡ err out_of_bounds
  unfolding run_once
  run_once-overflows big = rw (front, run_once, stitch_onto-overflows last p v u big)

pub assemble_more :
    (pending : Bytes) (p : StitchPacket) (ps : List StitchPacket)
    → p.stitch ≡ true
    → assemble pending (p ∷ ps) ≡ assemble (pending ++ contents p) ps
assemble_more pending p ps e = ground arith

pub assemble_end :
    (pending : Bytes) (p : StitchPacket) (ps : List StitchPacket)
    → p.stitch ≡ false
    → assemble pending (p ∷ ps) ≡ (pending ++ contents p) ∷ assemble [] ps
assemble_end pending p ps e = ground arith

run_passes-suc :
    (n : ℕ) (t : ReceiveThread) {t' t'' : ReceiveThread} {sent : Option Bytes}
    {messages : List Bytes}
    → t.stop_request ≡ false
    → run_once t ≡ ok (t', sent)
    → run_passes n t' ≡ ok (t'', messages)
    → run_passes (suc n) t ≡ ok (t'', with_sent sent messages)
unfolding run_passes
run_passes-suc n t go once rest = ground arith

pub assemble-Passed :
    {t t' : ReceiveThread} (p : StitchPacket) (ps : List StitchPacket) {rest : List StitchPacket}
    {sent : Option Bytes}
    → Passed t p rest t' sent
    → with_sent sent (assemble (contents t'.last_received_message) ps)
      ≡ assemble (contents t.last_received_message) (p ∷ ps)
assemble-Passed {t} {t'} p ps x = elim (Bool-cases p.stitch) [
  | inl more ↦
      ap (λ s. with_sent s (assemble (contents t'.last_received_message) ps)) (rw more at (x.sends))
      ∙ ap (λ b. assemble b ps) (rw more at (x.kept))
      ∙ sym (assemble_more _ p ps more)
  | inr end ↦
      ap (λ s. with_sent s (assemble (contents t'.last_received_message) ps)) (rw end at (x.sends))
      ∙ ap (λ b. (contents t.last_received_message ++ contents p) ∷ assemble b ps)
          (rw end at (x.kept))
      ∙ sym (assemble_end _ p ps end)
]

-- As many passes as there are packets empty the queue and send exactly the messages of `assemble`,
-- in its order, if no stop is requested, the message and the packets are well formed, and no
-- message grows beyond 2304 bytes.
pub run_passes-assemble :
    (ps : List StitchPacket) (t : ReceiveThread)
    → t.queue ≡ ps
    → t.stop_request ≡ false
    → IsMessage t.last_received_message
    → Fits (contents t.last_received_message) ps
    → (t' : ReceiveThread) × (run_passes (length ps) t
        ≡ ok (t', assemble (contents t.last_received_message) ps))
      × (t'.queue ≡ [])
      × IsMessage t'.last_received_message
unfolding run_passes
run_passes-assemble [] t e go v fits = (t, refl, e, v)
run_passes-assemble (p ∷ ps) t e go v (u, room, fits) =
    let (t₁, sent, x) =
      run_once_room t p ps e v u (omega (arith, length-contents t.last_received_message p v u)) in
    let (t', passes, empty, message) =
      run_passes-assemble ps t₁ x.queue (x.stop ∙ go) x.message (rw x.kept fits) in
    (
      t',
      run_passes-suc (length ps) t go x.pass passes ∙ ap (λ m. ok (t', m)) (assemble-Passed p ps x),
      empty,
      message,
    )
