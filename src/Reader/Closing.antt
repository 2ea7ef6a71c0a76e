-- ===== src/Reader/Closing.antt =====
-- `USBReader::Close` with the reader's thread.
use cwusb.Base.{
  ℕ, suc, zero, ◌+◌, ◌^◌, ◌≤◌, ◌<◌, ◌≡◌, refl, ◌∙◌, ◌⊎◌, true, false, ◌||◌, [], Option, none, some,
  ok, err, int_lt, minus_one, ◌==◌, arith, if◌then◌else◌, inl, inr, Bool-cases, Result-cases,
}
use cwusb.SendThread
use cwusb.SendThread.{SendThread}
use cwusb.ReceiveThread
use cwusb.ReceiveThread.{ReceiveThread}
use cwusb.Reader.State.{Reader}
use cwusb.Reader.Device.{handle_close}
use cwusb.Reader.Loop.{ErrorCodes, Events, goes_on, pass}
use cwusb.Reader.Control.{close, stop_threads}
use cwusb.Reader.Absent.{IsAbsent, IsUnplugged}
use cwusb.Reader.Threads.{IsStoppable, pass-IsStoppable}
use cwusb.Reader.Unplugged.{
  Queues, with_queues, run_among, Notices, run_among-ends, run_among-over, run_among-step,
}

-- The wait for the reader's thread, while the others work: what it leaves, if its loop is over after
-- `n` passes at most. A pass that faults leaves nothing to wait for either; `Reader.SafeRun` excludes
-- it.
unfoldable pub joined : ErrorCodes → ℕ → (ℕ → Events) → (ℕ → Queues) → Reader → Option Reader
joined codes n events others r = elim (run_among codes n r events others 0) [
  | err f ↦ none
  | ok r' ↦ if goes_on r' then none else some r'
]

-- The reader after the threads are stopped.
pub record IsClosed (r : Reader) : Type 0 where
  pub device : r.device_handle ≡ none
  pub usb_thread : r.usb_thread ≡ false
  pub threads : r.has_threads ≡ false
  pub send_stopped : r.send_thread.running ≡ false
  pub receive_stopped : r.receive_thread.running ≡ false
  pub nothing_to_cut : r.send_thread.queue ≡ []
  pub nothing_to_send : r.send_thread.outgoing_queue ≡ []
  pub nothing_received : r.receive_thread.queue ≡ []

stop_threads-IsClosed :
    (r : Reader)
    → r.device_handle ≡ none
    → r.usb_thread ≡ false
    → IsStoppable r
    → (r' : Reader) × (stop_threads r ≡ some r') × IsClosed r'
unfolding stop_threads SendThread.stop_thread ReceiveThread.stop_thread SendThread.clear_queues
    ReceiveThread.clear_queues
stop_threads-IsClosed r absent off s = (
  record r {
    send_thread = record (SendThread.clear_queues r.send_thread) {
      stop_request = true;
      running = false;
    };
    receive_thread = record (ReceiveThread.clear_queues r.receive_thread) {
      stop_request = true;
      done = true;
      running = false;
    };
    has_threads = false;
  },
  ground (arith, s.started, s.send_done, s.receive_runs),
  record {
    device = absent;
    usb_thread = off;
    threads = refl;
    send_stopped = refl;
    receive_stopped = refl;
    nothing_to_cut = refl;
    nothing_to_send = refl;
    nothing_received = refl;
  },
)

-- The threads of the queues keep their own flags.
abbrev pub StayStoppable : (ℕ → Queues) → Type 0
StayStoppable others =
    (i : ℕ) → ((others i).0.done ≡ true) × (((others i).1.running || (others i).1.done) ≡ true)

-- The PSP is gone for as long as the thread makes `n` passes more, and the thread will notice.
pub record IsGone (codes : ErrorCodes) (n : ℕ) (events : ℕ → Events) (r : Reader) : Type 0 where
  pub no_timeout : minus_one == codes.timeout ≡ false
  pub not_busy : minus_one == codes.busy ≡ false
  pub absent : (i : ℕ) → IsAbsent (events i).devices
  pub notices : Notices r
  pub counted : r.retry_counter ≤ r.max_fatal_retries
  pub limited : r.max_fatal_retries < 2 ^ 31
  pub enough : r.max_fatal_retries + 1 < r.retry_counter + n

-- No restart of the device is counted, or none can succeed.
abbrev pub WillEnd : ErrorCodes → ℕ → (ℕ → Events) → Reader → Type 0
WillEnd codes n events r = (int_lt 0 r.retry_counter ≡ false) ⊎ IsGone codes n events r

pub pass-closes :
    (codes : ErrorCodes) (r : Reader) (e : Events)
    → r.stop_request ≡ true
    → pass codes r e ≡ ok ((handle_close r).0, [])
unfolding pass
pass-closes codes r e stop = ground (arith, stop)

module _ (codes : ErrorCodes) (events : ℕ → Events) (others : ℕ → Queues) where
  run_among-IsStoppable :
      (n i : ℕ) (r : Reader) {r' : Reader}
      → StayStoppable others
      → IsStoppable r
      → run_among codes n r events others i ≡ ok r'
      → IsStoppable r'
  unfolding run_among
  run_among-IsStoppable zero i r stay s ran = ground (arith, ran, s)
  run_among-IsStoppable (suc n) i r stay s ran = elim (Bool-cases (goes_on r)) [
    | inr over ↦ ground (arith, over, ran, s)
    | inl goes ↦
        let r₁ = with_queues r (others i) in
        let s₁ : IsStoppable r₁ = record {
          started = s.started;
          send_done = (stay i).0;
          receive_runs = (stay i).1;
        } in
        elim (Result-cases (pass codes r₁ (events i))) [
          | inr (f, fails) ↦ absurd (ground (arith, goes, fails, ran))
          | inl ((r₂, writes), passes) ↦
              run_among-IsStoppable n (i + 1) r₂ stay
                (pass-IsStoppable codes r₁ (events i) s₁ passes) (ground (arith, goes, passes, ran))
        ]
  ]

  joined-over :
      (n : ℕ) (r r' : Reader)
      → run_among codes n r events others 0 ≡ ok r'
      → goes_on r' ≡ false
      → joined codes n events others r ≡ some r'
  unfolding joined
  joined-over n r r' ran over = ground (arith, ran, over)

  no_device : (r : Reader) → goes_on r ≡ false → r.device_handle ≡ none
  unfolding goes_on
  no_device r over = ground (arith, over)

  -- The pass that sees the request, with no restart counted.
  closed_over :
      (r : Reader) (q : Queues)
      → int_lt 0 r.retry_counter ≡ false
      → goes_on (handle_close (with_queues r q)).0 ≡ false
  unfolding handle_close goes_on
  closed_over r q none_counted = ground (arith, none_counted)

  closed-IsUnplugged :
      (r : Reader) (q : Queues)
      → IsUnplugged (handle_close (with_queues r q)).0 r.retry_counter r.max_fatal_retries
  unfolding handle_close
  closed-IsUnplugged r q = ground arith

  closed-Notices :
      (r : Reader) (q : Queues) → Notices r → Notices (handle_close (with_queues r q)).0
  unfolding handle_close
  closed-Notices r q n = ground (arith, n)

  stopped :
      {n : ℕ} (r : Reader)
      → WillEnd codes n events r
      → WillEnd codes n events (record r { stop_request = true })
  stopped r (inl none_counted) = inl none_counted
  stopped r (inr g) = inr (record {
    no_timeout = g.no_timeout;
    not_busy = g.not_busy;
    absent = g.absent;
    notices = g.notices;
    counted = g.counted;
    limited = g.limited;
    enough = g.enough;
  })

  run_stops :
      (n : ℕ) (r : Reader)
      → r.stop_request ≡ true
      → WillEnd codes n events r
      → (r' : Reader) × (run_among codes (suc n) r events others 0 ≡ ok r') × (goes_on r' ≡ false)
  run_stops n r stop ends = elim (Bool-cases (goes_on r)) [
    | inr over ↦ (r, run_among-over codes events others (suc n) 0 r over, over)
    | inl goes ↦
        let r₀ = with_queues r (others 0) in
        let steps =
          run_among-step codes events others n 0 r goes (pass-closes codes r₀ (events 0) stop) in
        elim ends [
          | inl none_counted ↦
              let over = closed_over r (others 0) none_counted in
              (
                (handle_close r₀).0,
                steps ∙ run_among-over codes events others n 1 (handle_close r₀).0 over,
                over,
              )
          | inr g ↦
              let (r', ran, over) =
                run_among-ends codes g.no_timeout g.not_busy r.max_fatal_retries g.limited events
                  others g.absent n 1 (handle_close r₀).0 r.retry_counter
                  (closed-IsUnplugged r (others 0)) (closed-Notices r (others 0) g.notices)
                  g.counted g.enough in
              (r', steps ∙ ran, over)
        ]
  ]

  close-joined :
      (join : Reader → Option Reader) (r : Reader) {r₂ : Reader}
      → r.usb_thread ≡ true
      → join (record r { stop_request = true }) ≡ some r₂
      → close join r ≡ stop_threads (record r₂ { usb_thread = false })
  unfolding close
  close-joined join r on waits = ground (arith, on, waits)

  -- `Close` returns, whatever the other threads make of the queues until then, if no restart of the
  -- device is counted and its thread gets to make one more pass, or if restarts are counted, the PSP
  -- is gone, the thread has noticed or will with its next read, and gets to make a pass for each
  -- restart left and three more: the device is closed, no thread is left, and the queues are empty.
  -- The conditions are that the threads of the queues run as `StartReceiverThread` leaves them, and
  -- for a PSP that is gone a limit of restarts below 2^31 that the count has not passed and error
  -- codes that differ from -1.
  pub close-IsClosed :
      (n : ℕ) (r : Reader)
      → r.usb_thread ≡ true
      → IsStoppable r
      → StayStoppable others
      → WillEnd codes n events r
      → (r' : Reader) × (close (joined codes (suc n) events others) r ≡ some r') × IsClosed r'
  close-IsClosed n r on s stay ends =
      let r₁ : Reader = record r { stop_request = true } in
      let s₁ : IsStoppable r₁ = record {
        started = s.started;
        send_done = s.send_done;
        receive_runs = s.receive_runs;
      } in
      let (r₂, ran, over) = run_stops n r₁ refl (stopped r ends) in
      let s₂ = run_among-IsStoppable (suc n) 0 r₁ stay s₁ ran in
      let (r', stops, c) =
        stop_threads-IsClosed (record r₂ { usb_thread = false }) (no_device r₂ over) refl
          (record {
            started = s₂.started;
            send_done = s₂.send_done;
            receive_runs = s₂.receive_runs;
          }) in
      (
        r',
        close-joined (joined codes (suc n) events others) r on (joined-over (suc n) r₁ r₂ ran over)
            ∙ stops,
        c,
      )
