-- ===== src/Reader/Reopened.antt =====
-- The thread of `USBReader` that is asked to stop while restarts are counted and the PSP is back.
use cwusb.Base.{
  ℕ, ◌+◌, ◌^◌, ◌<◌, ◌≡◌, refl, ap, ◌∙◌, ◌⊎◌, inl, inr, true, false, List, [], ◌∷◌, ◌++◌, Option,
  none, some, ok, minus_one, ◌==◌, Bool-cases, arith,
}
use cwusb.SendThread
use cwusb.Reader.State.{Reader}
use cwusb.Reader.Transfers.{Write, usb_bulk_read, usb_bulk_write, usb_check_device}
use cwusb.Reader.Device.{Device, open_device, handle_close, handle_error}
use cwusb.Reader.Opening.{AllOther, IsUsable, open_device-first}
use cwusb.Reader.Loop.{
  ErrorCodes, Events, goes_on, check_device, recover, read_failed, read_packet, read_phase, pass,
}
use cwusb.Reader.Absent.{checked, check_device-absent}
use cwusb.Reader.Running.{IsQuiet, IsAnswered, hello_of_check, write_phase-empty}

-- In a pass the PSP is there, answers the check and sends nothing.
pub record IsBack (codes : ErrorCodes) (e : Events) : Type 0 where
  pub others : List Device
  pub rest : List Device
  pub psp : Device
  pub handle : ℕ
  pub listed : e.devices ≡ some (others ++ (psp ∷ rest))
  pub first : AllOther others
  pub usable : IsUsable psp handle
  pub answered : IsAnswered e.check
  pub waits : IsQuiet codes e.read

-- The loop, before the device is opened again and after it.
pub record Loops (r : Reader) : Type 0 where
  pub going : r.stop_request ≡ false
  pub not_sending : r.send_stitching ≡ false
  pub counted : 0 < r.retry_counter
  pub limited : r.max_fatal_retries < 2 ^ 31
  pub device :
      ((r.device_handle ≡ none) × (r.retry_counter + 1 < r.max_fatal_retries))
      ⊎ ((handle : ℕ) × (r.device_handle ≡ some handle)
          × (r.error ≡ false)
          × (r.retry_counter < r.max_fatal_retries))

pub Loops-goes_on : (r : Reader) → Loops r → goes_on r ≡ true
unfolding goes_on
Loops-goes_on r l = elim l.device [
  | inl (absent, left) ↦ ground (arith, absent, l.going, l.counted, l.limited, left)
  | inr (handle, found, fine, left) ↦ ground (arith, found)
]

module _ (codes : ErrorCodes) where
  read_packet-nothing :
      (r : Reader) (e : Events) {handle : ℕ}
      → r.device_handle ≡ some handle
      → IsQuiet codes e.read
      → read_packet codes r e.read e.hello_write ≡ ok (r, [])
  unfolding read_packet usb_bulk_read read_failed
  read_packet-nothing r e found q =
      ground (arith, found, q.waits, q.nothing, codes.timeout_negative, codes.busy_negative)

  read_phase-nothing :
      (r : Reader) (e : Events) {handle : ℕ}
      → r.device_handle ≡ some handle
      → IsQuiet codes e.read
      → r.send_stitching ≡ false
      → read_phase codes r e ≡ ok (r, [])
  unfolding read_phase
  read_phase-nothing r e found q off = ground (arith, off, read_packet-nothing r e found q)

  read_phase-lost :
      (r : Reader) (e : Events)
      → minus_one == codes.timeout ≡ false
      → minus_one == codes.busy ≡ false
      → r.device_handle ≡ none
      → r.send_stitching ≡ false
      → read_phase codes r e ≡ ok (record r { error = true }, [])
  unfolding read_phase read_packet usb_bulk_read read_failed
  read_phase-lost r e nt nb absent off = ground (arith, absent, off, nt, nb)

  pass-silent :
      (r r₁ r₂ : Reader) (e : Events) {checks : List Write}
      → r.stop_request ≡ false
      → check_device r e.check ≡ (r₁, checks)
      → read_phase codes (recover r₁ e.devices) e ≡ ok (r₂, [])
      → r₂.send_thread.outgoing_queue ≡ []
      → (writes : List Write) × (pass codes r e ≡ ok (r₂, writes))
  unfolding pass
  pass-silent r r₁ r₂ e {checks} going check read empty =
      (checks ++ ([] ++ []), ground (arith, going, check, read, write_phase-empty r₂ empty e))

pub handle_close-opens :
    (r : Reader) → (handle_close r).0 ≡ record r { device_handle = none; stop_request = false }
unfolding handle_close
handle_close-opens r = ground arith

-- A restart finds the PSP.
handle_error-Loops :
    (codes : ErrorCodes) (r : Reader) (e : Events)
    → (b : IsBack codes e) → r.retry_counter + 1 < r.max_fatal_retries
    → r.max_fatal_retries < 2 ^ 31
    → Loops (handle_error r e.devices)
      × ((handle_error r e.devices).send_thread.outgoing_queue ≡ [])
      × ((handle_error r e.devices).device_handle ≡ some b.handle)
unfolding handle_error SendThread.clear_queues
handle_error-Loops codes r e b left small =
    let r₀ : Reader = record r { device_handle = none; stop_request = false } in
    let opens : (open_device (handle_close r).0 e.devices).0
        ≡ record r₀ { device_handle = some b.handle } =
      ap (λ d. (open_device (handle_close r).0 d).0) b.listed
      ∙ ap (λ x. (open_device x (some (b.others ++ (b.psp ∷ b.rest)))).0) (handle_close-opens r)
      ∙ ap (λ x. x.0) (open_device-first r₀ b.others b.rest b.psp b.handle refl b.first b.usable) in
    (
      rw opens (record {
        going = refl;
        not_sending = refl;
        counted = omega arith;
        limited = small;
        device = inr (b.handle, refl, refl, omega arith);
      }),
      refl,
      ap (λ x. x.device_handle) opens,
    )

recover-restarts :
    (r : Reader) (devices : Option (List Device))
    → r.retry_counter < r.max_fatal_retries
    → r.max_fatal_retries < 2 ^ 31
    → r.error ≡ true
    → recover (checked r) devices ≡ handle_error (checked r) devices
unfolding recover
recover-restarts r devices left small error = ground (arith, error, left, small)

recover-nothing :
    (r : Reader) (devices : Option (List Device))
    → r.retry_counter < r.max_fatal_retries
    → r.max_fatal_retries < 2 ^ 31
    → r.error ≡ false
    → recover (checked r) devices ≡ checked r
unfolding recover
recover-nothing r devices left small fine = ground (arith, fine, left, small)

check_device-back :
    (r : Reader) (e : Events) {handle : ℕ}
    → r.device_handle ≡ some handle
    → IsAnswered e.check
    → (checks : List Write) × (check_device r e.check ≡ (checked r, checks))
unfolding check_device usb_check_device usb_bulk_write
check_device-back r e found a = elim (Bool-cases r.usb_check_successful) [
  | inl done ↦ ([], ground (arith, done))
  | inr not_yet ↦ (hello_of_check ∷ [], ground (arith, not_yet, found, a.no_error, a.taken))
]

module _ (codes : ErrorCodes) (nt : minus_one == codes.timeout ≡ false)
    (nb : minus_one == codes.busy ≡ false) where
  -- Without a device: it is opened again, or its loss is noticed.
  pass-without :
      (r : Reader) (e : Events)
      → IsBack codes e
      → Loops r
      → r.device_handle ≡ none
      → r.retry_counter + 1 < r.max_fatal_retries
      → r.send_thread.outgoing_queue ≡ []
      → (r' : Reader) × (writes : List Write) × (pass codes r e ≡ ok (r', writes)) × Loops r'
  pass-without r e b l absent left empty = elim (Bool-cases r.error) [
    | inl error ↦
        let (l', empty', found) = handle_error-Loops codes (checked r) e b left l.limited in
        let r' = handle_error (checked r) e.devices in
        let (writes, passes) =
          pass-silent codes r (checked r) r' e l.going (check_device-absent r e.check absent)
            (ap (λ x. read_phase codes x e)
                (recover-restarts r e.devices (omega arith) l.limited error)
              ∙ read_phase-nothing codes r' e found b.waits l'.not_sending)
            empty' in
        (r', writes, passes, l')
    | inr fine ↦
        let r' : Reader = record (checked r) { error = true } in
        let (writes, passes) =
          pass-silent codes r (checked r) r' e l.going (check_device-absent r e.check absent)
            (ap (λ x. read_phase codes x e)
                (recover-nothing r e.devices (omega arith) l.limited fine)
              ∙ read_phase-lost codes (checked r) e nt nb absent l.not_sending)
            empty in
        (
          r',
          writes,
          passes,
          record {
            going = l.going;
            not_sending = l.not_sending;
            counted = l.counted;
            limited = l.limited;
            device = inl (absent, left);
          },
        )
  ]

  -- With the device open again.
  pass-with :
      (r : Reader) (e : Events) {handle : ℕ}
      → IsBack codes e
      → Loops r
      → r.device_handle ≡ some handle
      → r.error ≡ false
      → r.retry_counter < r.max_fatal_retries
      → r.send_thread.outgoing_queue ≡ []
      → (r' : Reader) × (writes : List Write) × (pass codes r e ≡ ok (r', writes)) × Loops r'
  pass-with r e {handle} b l found fine left empty =
      let (checks, check) = check_device-back r e found b.answered in
      let (writes, passes) =
        pass-silent codes r (checked r) (checked r) e l.going check
          (ap (λ x. read_phase codes x e) (recover-nothing r e.devices left l.limited fine)
            ∙ read_phase-nothing codes (checked r) e found b.waits l.not_sending)
          empty in
      (
        checked r,
        writes,
        passes,
        record {
          going = l.going;
          not_sending = l.not_sending;
          counted = l.counted;
          limited = l.limited;
          device = inr (handle, found, fine, left);
        },
      )

  pub pass-Loops :
      (r : Reader) (e : Events)
      → IsBack codes e
      → Loops r
      → r.send_thread.outgoing_queue ≡ []
      → (r' : Reader) × (writes : List Write) × (pass codes r e ≡ ok (r', writes)) × Loops r'
  pass-Loops r e b l empty = elim l.device [
    | inl (absent, left) ↦ pass-without r e b l absent left empty
    | inr (handle, found, fine, left) ↦ pass-with r e b l found fine left empty
  ]
