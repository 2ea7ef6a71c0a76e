-- ===== src/Reader/Waiting.antt =====
-- `USBReader::Close` while restarts are counted and the PSP is back.
use cwusb.Base.{
  ℕ, zero, suc, ◌+◌, ◌^◌, ◌<◌, ◌≡◌, refl, ◌∙◌, inl, true, false, [], Option, none, some, ok,
  minus_one, ◌==◌, arith,
}
use cwusb.Reader.State.{Reader}
use cwusb.Reader.Device.{handle_close}
use cwusb.Reader.Loop.{ErrorCodes, Events, goes_on}
use cwusb.Reader.Control.{close}
use cwusb.Reader.Unplugged.{Queues, with_queues, run_among, run_among-step}
use cwusb.Reader.Closing.{joined, pass-closes}
use cwusb.Reader.Reopened.{IsBack, Loops, Loops-goes_on, handle_close-opens, pass-Loops}

module _ (codes : ErrorCodes) (nt : minus_one == codes.timeout ≡ false)
    (nb : minus_one == codes.busy ≡ false) (events : ℕ → Events) (others : ℕ → Queues)
    (back : (i : ℕ) → IsBack codes (events i))
    (nothing : (i : ℕ) → (others i).0.outgoing_queue ≡ []) where
  with_queues-Loops : (r : Reader) (q : Queues) → Loops r → Loops (with_queues r q)
  with_queues-Loops r q l = record {
    going = l.going;
    not_sending = l.not_sending;
    counted = l.counted;
    limited = l.limited;
    device = l.device;
  }

  run_among-Loops :
      (n i : ℕ) (r : Reader)
      → Loops r
      → (r' : Reader) × (run_among codes n r events others i ≡ ok r') × Loops r'
  unfolding run_among
  run_among-Loops zero i r l = (r, refl, l)
  run_among-Loops (suc n) i r l =
      let r₀ = with_queues r (others i) in
      let (r₁, writes, passes, l₁) =
        pass-Loops codes nt nb r₀ (events i) (back i) (with_queues-Loops r (others i) l)
          (nothing i) in
      let (r', ran, l') = run_among-Loops n (i + 1) r₁ l₁ in
      (r', run_among-step codes events others n i r (Loops-goes_on r l) passes ∙ ran, l')

  closed-Loops :
      (r : Reader) (q : Queues)
      → r.send_stitching ≡ false
      → 0 < r.retry_counter
      → r.retry_counter + 1 < r.max_fatal_retries
      → r.max_fatal_retries < 2 ^ 31
      → Loops (handle_close (with_queues r q)).0
  closed-Loops r q off counted left small = rw (handle_close-opens (with_queues r q)) (record {
    going = refl;
    not_sending = off;
    counted = counted;
    limited = small;
    device = inl (refl, left);
  })

  joined-none :
      (n : ℕ) (r : Reader) {r' : Reader}
      → run_among codes n r events others 0 ≡ ok r'
      → goes_on r' ≡ true
      → joined codes n events others r ≡ none
  unfolding joined
  joined-none n r ran goes = ground (arith, ran, goes)

  close-waits :
      (join : Reader → Option Reader) (r : Reader)
      → r.usb_thread ≡ true
      → join (record r { stop_request = true }) ≡ none
      → close join r ≡ none
  unfolding close
  close-waits join r on waits = ground (arith, on, waits)

  open_goes_on : (r : Reader) {handle : ℕ} → r.device_handle ≡ some handle → goes_on r ≡ true
  unfolding goes_on
  open_goes_on r found = ground (arith, found)

  -- `Close` waits for its thread without end, however many passes that makes, if the PSP is there
  -- again while restarts are counted: the pass that sees the request takes it back, the next ones
  -- open the device again and go on, none of them faults, and the loop's condition still holds. The conditions are an open device, a count of restarts of
  -- at least one and at least two below the limit, which is below 2^31, a PSP that is listed and can
  -- be opened, answers the check and sends nothing in each pass, nothing that waits to be sent,
  -- no frame half sent, and codes that differ from -1.
  pub close_never_returns :
      (n : ℕ) (r : Reader) {handle : ℕ}
      → r.usb_thread ≡ true
      → r.device_handle ≡ some handle
      → r.send_stitching ≡ false
      → 0 < r.retry_counter
      → r.retry_counter + 1 < r.max_fatal_retries
      → r.max_fatal_retries < 2 ^ 31
      → (close (joined codes n events others) r ≡ none)
        × ((r' : Reader) × (run_among codes n (record r { stop_request = true }) events others 0
              ≡ ok r')
            × (goes_on r' ≡ true))
  unfolding run_among
  close_never_returns zero r on found off counted left small =
      let r₀ : Reader = record r { stop_request = true } in
      let goes = open_goes_on r₀ found in
      (
        close-waits (joined codes 0 events others) r on (joined-none 0 r₀ refl goes),
        (r₀, refl, goes),
      )
  close_never_returns (suc n) r on found off counted left small =
      let r₀ : Reader = record r { stop_request = true } in
      let closes = pass-closes codes (with_queues r₀ (others 0)) (events 0) refl in
      let l = closed-Loops r₀ (others 0) off counted left small in
      let (r', ran, l') = run_among-Loops n 1 (handle_close (with_queues r₀ (others 0))).0 l in
      let ran' = run_among-step codes events others n 0 r₀ (open_goes_on r₀ found) closes ∙ ran in
      let goes = Loops-goes_on r' l' in
      (
        close-waits (joined codes (suc n) events others) r on (joined-none (suc n) r₀ ran' goes),
        (r', ran', goes),
      )
