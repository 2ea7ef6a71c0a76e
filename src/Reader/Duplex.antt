-- ===== src/Reader/Duplex.antt =====
-- The thread of `USBReader` while it reads packets and writes those that wait in the outgoing queue.
use cwusb.Base.{
  ℕ, suc, ◌+◌, ◌≡◌, refl, ap, ap₂, ◌∙◌, append-nil, true, false, List, [], ◌∷◌, ◌++◌, map, Bytes,
  length, ok, Result-cases, Bool-cases, inl, inr, arith,
}
use cwusb.SendThread.{SendThread}
use cwusb.Reader.State.{Reader}
use cwusb.Reader.Transfers.{Transfer, Write, send_packets, handle_asynchronous_send}
use cwusb.Reader.Loop.{ErrorCodes, Events, goes_on, read_packet, write_phase, pass, run}
use cwusb.Reader.Delivery.{read_of}
use cwusb.Reader.Reads.{read_all}
use cwusb.Reader.Writing.{write_of}
use cwusb.Reader.Reading.{IsReading, AllAsync, read_packet-IsReading}
use cwusb.Reader.Running.{Feeds, goes_on-IsReading, pass-IsReading, read_all-step, run-read_all}
use cwusb.Reader.Sending.{
  IsTaken, half_sent, with_send, send_packets-taken, with_send-IsReading, read_all-with_send,
}

pub write_phase-sends :
    (r : Reader) (e : Events)
    → r.receive_stitching ≡ false
    → write_phase r e ≡ handle_asynchronous_send e.writes r
unfolding write_phase
write_phase-sends r e off = ground (arith, off)

pub write_phase-stitching :
    (r : Reader) (e : Events) → r.receive_stitching ≡ true → write_phase r e ≡ (r, [])
unfolding write_phase
write_phase-stitching r e on = ground (arith, on)

run-write :
    (codes : ErrorCodes) (n i : ℕ) (r r₁ r' : Reader) (events : ℕ → Events) (out more : List Write)
    → goes_on r ≡ true
    → pass codes r (events i) ≡ ok (r₁, out)
    → run codes n r₁ events (i + 1) ≡ ok (r', more)
    → run codes (suc n) r events i ≡ ok (r', out ++ more)
unfolding run
run-write codes n i r r₁ r' events out more goes passes ran = ground (arith, goes, passes, ran)

-- The thread `s` holds whole frames, and libusb takes the writes.
module _ (codes : ErrorCodes) (t : Transfer) (s : SendThread) (events : ℕ → Events)
    (taken : (i j : ℕ) → IsTaken ((events i).writes j))
    (complete : half_sent false s.outgoing_queue ≡ false) where
  abbrev pub drained : Reader → Reader
  drained r = with_send r (record s { outgoing_queue = [] }) false

  first_read :
      (w : Bytes) (ws : List Bytes) (r : Reader) {r' : Reader}
      → read_all codes t (w ∷ ws) r ≡ ok r'
      → (r₁ : Reader) × ((writes : List Write) × (read_packet codes r (read_of w) t
            ≡ ok (r₁, writes)))
        × (read_all codes t ws r₁ ≡ ok r')
  first_read w ws r reads = elim (Result-cases (read_packet codes r (read_of w) t)) [
    | inr (f, fails) ↦ absurd (ground (arith, fails, reads))
    | inl ((r₁, writes), read) ↦ (r₁, (writes, read), read_all-step codes t w ws r read reads)
  ]

  write_phase-taken :
      (r : Reader) (i : ℕ)
      → IsReading r
      → r.send_thread ≡ s
      → r.receive_stitching ≡ false
      → write_phase r (events i) ≡ (drained r, map write_of s.outgoing_queue)
  unfolding handle_asynchronous_send
  write_phase-taken r i v same off =
      let flag : half_sent r.send_stitching s.outgoing_queue ≡ false =
        ap (λ b. half_sent b s.outgoing_queue) v.not_sending ∙ complete in
      let all =
        send_packets-taken s.outgoing_queue (events i).writes 0 r v.opened.is_open v.going
          (ap (λ x. x.outgoing_queue) same) (taken i) in
      write_phase-sends r (events i) off
      ∙ ap (λ x. send_packets (length x.outgoing_queue) (events i).writes 0 r) same
      ∙ all
      ∙ ap₂ {C = Reader × List Write}
          (λ x b. (with_send r (record x { outgoing_queue = [] }) b, map write_of s.outgoing_queue))
          same flag

  -- The pass behind whose read no frame is half received.
  run-drains :
      (w : Bytes) (ws : List Bytes) (r r₁ r' : Reader) (i : ℕ) {writes : List Write}
      → IsReading r
      → r.send_thread ≡ s
      → AllAsync (w ∷ ws)
      → Feeds events i (w ∷ ws)
      → read_packet codes r (read_of w) t ≡ ok (r₁, writes)
      → read_all codes t ws r₁ ≡ ok r'
      → r₁.receive_stitching ≡ false
      → (run codes (suc (length ws)) r events i ≡ ok (drained r', map write_of s.outgoing_queue))
        × IsReading (drained r')
  run-drains w ws r r₁ r' i v same (a, others) (feed, feeds) read reads off =
      let (each, v₁, kept) = read_packet-IsReading codes r w v a t read in
      let s₀ : SendThread = record s { outgoing_queue = [] } in
      let passes =
        pass-IsReading codes r r₁ (drained r₁) (events i) v (rw feed (each (events i).hello_write))
          (write_phase-taken r₁ i v₁ (kept ∙ same) off) in
      let (ran, v', _) =
        run-read_all codes t ws (drained r₁) (drained r') events (i + 1)
          (with_send-IsReading r₁ s₀ v₁) refl others feeds
          (read_all-with_send codes t s₀ ws r₁ v₁ others reads) in
      (
        run-write codes (length ws) i r (drained r₁) (drained r') events
              (map write_of s.outgoing_queue) [] (goes_on-IsReading r v) passes ran
            ∙ ap (λ x. ok (drained r', x)) (append-nil (map write_of s.outgoing_queue)),
        v',
      )

  -- The passes of the loop that read the packets of whole frames and write all that waits.
  pub run-drained :
      (w : Bytes) (ws : List Bytes) (r r' : Reader) (i : ℕ)
      → IsReading r
      → r.send_thread ≡ s
      → AllAsync (w ∷ ws)
      → Feeds events i (w ∷ ws)
      → read_all codes t (w ∷ ws) r ≡ ok r'
      → r'.receive_stitching ≡ false
      → (run codes (suc (length ws)) r events i ≡ ok (drained r', map write_of s.outgoing_queue))
        × IsReading (drained r')
  run-drained w [] r r' i v same a feed reads off =
      let (r₁, read, later) = first_read w [] r reads in
      run-drains w [] r r₁ r' i v same a feed read.1 later (ground (arith, later, off))
  run-drained w (w' ∷ ws) r r' i v same (a, others) (feed, feeds) reads off =
      let (r₁, read, later) = first_read w (w' ∷ ws) r reads in
      elim (Bool-cases r₁.receive_stitching) [
        | inr off₁ ↦
            run-drains w (w' ∷ ws) r r₁ r' i v same (a, others) (feed, feeds) read.1 later off₁
        | inl on ↦
            let (each, v₁, kept) = read_packet-IsReading codes r w v a t read.1 in
            let passes : pass codes r (events i) ≡ ok (r₁, []) =
              pass-IsReading codes r r₁ r₁ (events i) v (rw feed (each (events i).hello_write))
                (write_phase-stitching r₁ (events i) on) in
            let (ran, v') =
              run-drained w' ws r₁ r' (i + 1) v₁ (kept ∙ same) others feeds later off in
            (
              run-write codes (suc (length ws)) i r r₁ (drained r') events []
                  (map write_of s.outgoing_queue) (goes_on-IsReading r v) passes ran,
              v',
            )
      ]
