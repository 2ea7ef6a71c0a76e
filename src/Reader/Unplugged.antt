-- ===== src/Reader/Unplugged.antt =====
-- The passes of `USBReader`'s thread while the PSP is unplugged, and other threads use the queues.
use cwusb.Base.{
  ℕ, zero, suc, ◌+◌, ◌^◌, ◌≤◌, ◌<◌, ◌≡◌, refl, ◌∙◌, ◌⊎◌, inl, inr, true, false, List, ltb, Result,
  ok, ◌>>=◌, minus_one, ◌==◌, Bool-cases, arith,
}
use cwusb.SendThread.{SendThread}
use cwusb.ReceiveThread.{ReceiveThread}
use cwusb.Reader.State.{Reader}
use cwusb.Reader.Transfers.{Write}
use cwusb.Reader.Loop.{ErrorCodes, Events, goes_on, pass}
use cwusb.Reader.Absent.{IsAbsent, IsUnplugged}
use cwusb.Reader.UnpluggedPass.{pass-restarts, pass-notices, pass-ends}

-- What the other threads have made of the two queues before a pass.
abbrev pub Queues : Type 0
Queues = SendThread × ReceiveThread

abbrev pub with_queues : Reader → Queues → Reader
with_queues r (s, t) = record r { send_thread = s; receive_thread = t }

-- The loop, with the other threads at work between its passes.
unfoldable pub run_among : ErrorCodes → ℕ → Reader → (ℕ → Events) → (ℕ → Queues) → ℕ → Result Reader
run_among codes zero r events others i = ok r
run_among codes (suc n) r events others i = elim (goes_on r) [
  | false ↦ ok r
  | true ↦ pass codes (with_queues r (others i)) (events i) >>= λ (r', writes).
      run_among codes n r' events others (i + 1)
]

-- A reader that has noticed, or will with its next read.
abbrev pub Notices : Reader → Type 0
Notices r = (r.error ≡ true) ⊎ (r.send_stitching ≡ false)

with_queues-IsUnplugged :
    (r : Reader) (q : Queues) {retries limit : ℕ}
    → IsUnplugged r retries limit
    → IsUnplugged (with_queues r q) retries limit
with_queues-IsUnplugged r (s, t) u = record {
  device = u.device;
  going = u.going;
  retried = u.retried;
  limited = u.limited;
}

module _ (codes : ErrorCodes) (events : ℕ → Events) (others : ℕ → Queues) where
  pub run_among-over :
      (fuel i : ℕ) (r : Reader) → goes_on r ≡ false → run_among codes fuel r events others i ≡ ok r
  unfolding run_among
  run_among-over zero i r over = refl
  run_among-over (suc fuel) i r over = ground (arith, over)

  pub run_among-step :
      (fuel i : ℕ) (r : Reader) {r' : Reader} {writes : List Write}
      → goes_on r ≡ true
      → pass codes (with_queues r (others i)) (events i) ≡ ok (r', writes)
      → run_among codes (suc fuel) r events others i ≡ run_among codes fuel r' events others (i + 1)
  unfolding run_among
  run_among-step fuel i r goes passes = ground (arith, goes, passes)

module _ (codes : ErrorCodes) (nt : minus_one == codes.timeout ≡ false)
    (nb : minus_one == codes.busy ≡ false) (limit : ℕ) (small : limit < 2 ^ 31)
    (events : ℕ → Events) (others : ℕ → Queues)
    (absent : (i : ℕ) → IsAbsent (events i).devices) where
  run_among-error :
      (fuel i : ℕ) (r : Reader) (retries : ℕ)
      → IsUnplugged r retries limit
      → r.error ≡ true
      → retries ≤ limit
      → limit < retries + fuel
      → (r' : Reader) × (run_among codes fuel r events others i ≡ ok r') × (goes_on r' ≡ false)
  run_among-error zero i r retries u error le lt = absurd (omega arith)
  run_among-error (suc fuel) i r retries u error le lt = elim (Bool-cases (goes_on r)) [
    | inr over ↦ (r, run_among-over codes events others (suc fuel) i r over, over)
    | inl goes ↦ elim (Bool-cases (ltb retries limit)) [
      | inl may ↦
          let r₁ = with_queues r (others i) in
          let (r₂, writes, passes, x) =
            pass-restarts codes nt nb limit small r₁ (events i) retries (absent i)
              (with_queues-IsUnplugged r (others i) u) (ground arith) error in
          let (r', ran, over) =
            run_among-error fuel (i + 1) r₂ (suc retries) x.unplugged x.error (ground arith)
              (omega arith) in
          (r', run_among-step codes events others fuel i r goes passes ∙ ran, over)
      | inr many ↦
          let same : retries ≡ limit = ground arith in
          let r₁ = with_queues r (others i) in
          let (r', writes, passes, over) =
            pass-ends codes nt nb limit small r₁ (events i)
              (rw same at (with_queues-IsUnplugged r (others i) u)) in
          (
            r',
            run_among-step codes events others fuel i r goes passes
                ∙ run_among-over codes events others fuel (i + 1) r' over,
            over,
          )
    ]
  ]

  run_among-unnoticed :
      (fuel i : ℕ) (r : Reader) (retries : ℕ)
      → IsUnplugged r retries limit
      → r.send_stitching ≡ false
      → r.error ≡ false
      → goes_on r ≡ true
      → retries ≤ limit
      → limit + 1 < retries + suc fuel
      → (r' : Reader) × (run_among codes (suc fuel) r events others i ≡ ok r')
        × (goes_on r' ≡ false)
  run_among-unnoticed fuel i r retries u off error goes le lt =
      elim (Bool-cases (ltb retries limit)) [
        | inl may ↦
            let (r₂, writes, passes, x) =
              pass-notices codes nt nb limit small (with_queues r (others i)) (events i) retries
                (with_queues-IsUnplugged r (others i) u) (ground arith) error off in
            let (r', ran, over) =
              run_among-error fuel (i + 1) r₂ retries x.unplugged x.error le (omega arith) in
            (r', run_among-step codes events others fuel i r goes passes ∙ ran, over)
        | inr many ↦
            let same : retries ≡ limit = ground arith in
            let (r', writes, passes, over) =
              pass-ends codes nt nb limit small (with_queues r (others i)) (events i)
                (rw same at (with_queues-IsUnplugged r (others i) u)) in
            (
              r',
              run_among-step codes events others fuel i r goes passes
                  ∙ run_among-over codes events others fuel (i + 1) r' over,
              over,
            )
      ]

  -- While libusb lists no PSP, a reader without a device that has noticed the loss or reads next
  -- ends its thread, whatever the other threads make of its queues between the passes: after at
  -- most one pass for each restart left and two more, the loop is over. The conditions are a limit
  -- below 2^31 that the count has not passed, and error codes that differ from -1.
  pub run_among-ends :
      (fuel i : ℕ) (r : Reader) (retries : ℕ)
      → IsUnplugged r retries limit
      → Notices r
      → retries ≤ limit
      → limit + 1 < retries + fuel
      → (r' : Reader) × (run_among codes fuel r events others i ≡ ok r') × (goes_on r' ≡ false)
  run_among-ends zero i r retries u notices le lt = absurd (omega arith)
  run_among-ends (suc fuel) i r retries u (inl error) le lt =
      run_among-error (suc fuel) i r retries u error le (omega arith)
  run_among-ends (suc fuel) i r retries u (inr off) le lt = elim (Bool-cases r.error) [
    | inl error ↦ run_among-error (suc fuel) i r retries u error le (omega arith)
    | inr error ↦ elim (Bool-cases (goes_on r)) [
      | inr over ↦ (r, run_among-over codes events others (suc fuel) i r over, over)
      | inl goes ↦ run_among-unnoticed fuel i r retries u off error goes le lt
    ]
  ]
