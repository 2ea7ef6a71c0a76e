-- ===== src/Reader/UnpluggedPass.antt =====
-- A pass of `USBReader`'s thread while the PSP is unplugged.
use cwusb.Base.{
  ℕ, suc, ◌^◌, ◌<◌, ◌≡◌, refl, ap, ◌∙◌, true, false, List, Option, ok, add32, minus_one, ◌==◌,
  arith,
}
use cwusb.Reader.State.{Reader}
use cwusb.Reader.Transfers.{Write}
use cwusb.Reader.Device.{Device, handle_error}
use cwusb.Reader.Loop.{ErrorCodes, Events, goes_on, recover, read_phase, write_phase, pass}
use cwusb.Reader.Stop.{pass_gives_up}
use cwusb.Reader.Absent.{
  IsAbsent, IsUnplugged, checked, check_device-absent, pass-checked, handle_error-absent,
  read_phase-absent, write_phase-absent,
}

-- One pass: the count of restarts grows by one, or the loop ends.
pub record Restarted (r' : Reader) (retries limit : ℕ) : Type 0 where
  pub unplugged : IsUnplugged r' retries limit
  pub error : r'.error ≡ true

module _ (codes : ErrorCodes) (nt : minus_one == codes.timeout ≡ false)
    (nb : minus_one == codes.busy ≡ false) where
  -- What a pass makes of a reader that its recovery leaves without a device and ready to read.
  pass-reads :
      (r r₁ : Reader) (e : Events) {retries limit retries' : ℕ}
      → IsUnplugged r retries limit
      → recover (checked r) e.devices ≡ r₁
      → IsUnplugged r₁ retries' limit
      → r₁.send_stitching ≡ false
      → (r' : Reader) × (writes : List Write) × (pass codes r e ≡ ok (r', writes))
        × Restarted r' retries' limit
  pass-reads r r₁ e u recovers u₁ off =
      let r₂ : Reader = record r₁ { error = true } in
      let u₂ : IsUnplugged r₂ _ _ = record {
        device = u₁.device;
        going = u₁.going;
        retried = u₁.retried;
        limited = u₁.limited;
      } in
      let (u₃, err) = write_phase-absent r₂ e u₂ refl in
      (
        (write_phase r₂ e).0,
        (write_phase r₂ e).1,
        pass-checked codes r e u.device u.going
            (ap (λ x. read_phase codes x e) recovers ∙ read_phase-absent codes r₁ e nt nb u₁ off),
        record { unplugged = u₃; error = err },
      )

  module _ (limit : ℕ) (small : limit < 2 ^ 31) where
    recover-restarts :
        (r : Reader) (devices : Option (List Device)) (retries : ℕ)
        → IsUnplugged r retries limit
        → retries < limit
        → r.error ≡ true
        → recover (checked r) devices ≡ handle_error (checked r) devices
    unfolding recover
    recover-restarts r devices retries u may error = ground (arith, u.retried, u.limited, error)

    recover-nothing :
        (r : Reader) (devices : Option (List Device)) (retries : ℕ)
        → IsUnplugged r retries limit
        → retries < limit
        → r.error ≡ false
        → recover (checked r) devices ≡ checked r
    unfolding recover
    recover-nothing r devices retries u may error = ground (arith, u.retried, u.limited, error)

    checked-IsUnplugged :
        (r : Reader) {retries : ℕ}
        → IsUnplugged r retries limit
        → IsUnplugged (checked r) retries limit
    checked-IsUnplugged r u = record {
      device = u.device;
      going = u.going;
      retried = u.retried;
      limited = u.limited;
    }

    pub pass-restarts :
        (r : Reader) (e : Events) (retries : ℕ)
        → IsAbsent e.devices
        → IsUnplugged r retries limit
        → retries < limit
        → r.error ≡ true
        → (r' : Reader) × (writes : List Write) × (pass codes r e ≡ ok (r', writes))
          × Restarted r' (suc retries) limit
    pass-restarts r e retries absent u may error =
        let (u₁, off) =
          handle_error-absent (checked r) e.devices absent (checked-IsUnplugged r u) in
        let next : add32 retries 1 ≡ suc retries = omega arith in
        pass-reads r (handle_error (checked r) e.devices) e u
          (recover-restarts r e.devices retries u may error) (rw next at u₁) off

    pub pass-notices :
        (r : Reader) (e : Events) (retries : ℕ)
        → IsUnplugged r retries limit
        → retries < limit
        → r.error ≡ false
        → r.send_stitching ≡ false
        → (r' : Reader) × (writes : List Write) × (pass codes r e ≡ ok (r', writes))
          × Restarted r' retries limit
    pass-notices r e retries u may error off =
        pass-reads r (checked r) e u (recover-nothing r e.devices retries u may error)
          (checked-IsUnplugged r u) off

    pass-is_checked :
        (r : Reader) (e : Events) {retries : ℕ}
        → IsUnplugged r retries limit
        → pass codes r e ≡ pass codes (checked r) e
    unfolding pass
    pass-is_checked r e u = ground (
      arith,
      u.going,
      check_device-absent r e.check u.device,
      check_device-absent (checked r) e.check u.device,
    )

    pub pass-ends :
        (r : Reader) (e : Events)
        → IsUnplugged r limit limit
        → (r' : Reader) × (writes : List Write) × (pass codes r e ≡ ok (r', writes))
          × (goes_on r' ≡ false)
    pass-ends r e u =
        let (r', writes, passes, over) =
          pass_gives_up codes (checked r) e u.going refl (ground (arith, u.retried, u.limited)) in
        (r', writes, pass-is_checked r e u ∙ passes, over)
