-- ===== src/Reader/Opening.antt =====
-- How `USBReader::Open` finds the PSP among libusb's devices.
use cwusb.Base.{
  ℕ, ◌+◌, ◌≡◌, refl, ap, sym, ◌∙◌, true, false, List, [], ◌∷◌, ◌++◌, none, some, length, append-nil,
  Bool-cases, inl, inr, arith,
}
use cwusb.Reader.State.{Reader}
use cwusb.Reader.Device.{
  Device, UsbCall, read_list, free_list, opened, succeeded, opened_handle, is_psp, claim,
  open_matching, try_device, open_loop, open_device,
}

-- A device that is no PSP.
pub record IsOther (d : Device) : Type 0 where
  pub descriptor : succeeded d.descriptor_result ≡ true
  pub other : is_psp d ≡ false

pub record IsPsp (d : Device) : Type 0 where
  pub descriptor : succeeded d.descriptor_result ≡ true
  pub psp : is_psp d ≡ true

-- A PSP that can be opened, configured and claimed.
pub record IsUsable (d : Device) (handle : ℕ) : Type 0 where
  pub is_psp : IsPsp d
  pub opens : opened_handle d ≡ some handle
  pub configured : succeeded d.configuration_result ≡ true
  pub claimed : d.claim_result ≡ 0

abbrev pub AllOther : List Device → Type 0
AllOther [] = Unit {0}
AllOther (d ∷ ds) = IsOther d × AllOther ds

-- The accesses to the list for some devices in a row.
abbrev pub reads : ℕ → List Device → List UsbCall
reads i [] = []
reads i (d ∷ ds) = read_list i ∷ reads (i + 1) ds

try_device-other : (i : ℕ) (d : Device) → IsOther d → try_device i d ≡ (none, read_list i ∷ [])
unfolding try_device
try_device-other i d o = ground (arith, o.descriptor, o.other)

try_device-usable :
    (i : ℕ) (d : Device) (handle : ℕ)
    → IsUsable d handle
    → try_device i d ≡ (some handle, read_list i ∷ opened handle ∷ free_list ∷ [])
unfolding try_device open_matching claim
try_device-usable i d handle u =
    ground (arith, u.is_psp.descriptor, u.is_psp.psp, u.opens, u.configured, u.claimed)

try_device-refused :
    (i : ℕ) (d : Device)
    → IsPsp d
    → opened_handle d ≡ none
    → try_device i d ≡ (none, read_list i ∷ free_list ∷ [])
unfolding try_device open_matching
try_device-refused i d p refused = ground (arith, p.descriptor, p.psp, refused)

-- Whatever becomes of it, a device is looked up first.
try_device-reads :
    (i : ℕ) (d : Device) → (calls : List UsbCall) × ((try_device i d).1 ≡ read_list i ∷ calls)
unfolding try_device
try_device-reads i d = elim (Bool-cases (succeeded d.descriptor_result)) [
  | inl read ↦ elim (Bool-cases (is_psp d)) [
    | inl psp ↦ ((open_matching d).1, ground arith)
    | inr other ↦ ([], ground arith)
  ]
  | inr failed ↦ (free_list ∷ [], ground arith)
]

-- The loop goes past the devices that are no PSP.
open_loop-others :
    (i j : ℕ) (others rest : List Device)
    → AllOther others
    → i + length others ≡ j
    → open_loop i (others ++ rest) none
      ≡ ((open_loop j rest none).0, reads i others ++ (open_loop j rest none).1)
unfolding open_loop
open_loop-others i j [] rest os e = let same : i ≡ j = omega (arith, e) in rw same refl
open_loop-others i j (d ∷ others) rest (o, os) e =
    rw (try_device-other i d o, open_loop-others (i + 1) j others rest os (omega (arith, e))) refl

open_loop-found :
    (i : ℕ) (ds : List Device) (handle : ℕ) → open_loop i ds (some handle) ≡ (some handle, [])
unfolding open_loop
open_loop-found i [] handle = refl
open_loop-found i (d ∷ ds) handle = refl

-- With no device open, `Open` takes the first PSP of the list, behind devices that are none and
-- whose descriptors can be read, if it can be opened, configured and claimed: it looks at the
-- devices up to that one only, opens it and gives the list back.
pub open_device-first :
    (r : Reader) (others rest : List Device) (d : Device) (handle : ℕ)
    → r.device_handle ≡ none
    → AllOther others
    → IsUsable d handle
    → open_device r (some (others ++ (d ∷ rest))) ≡ (
      record r { device_handle = some handle },
      true,
      reads 0 others ++ (read_list (length others) ∷ opened handle ∷ free_list ∷ []),
    )
unfolding open_device open_loop
open_device-first r others rest d handle no_handle os u =
    rw
      (
        no_handle,
        open_loop-others 0 (length others) others (d ∷ rest) os (omega arith),
        try_device-usable (length others) d handle u,
        open_loop-found (length others + 1) rest handle,
      )
      refl

-- With no device open, `Open` finds nothing when every descriptor can be read and none is a PSP's,
-- and does not give the list back.
pub open_device-none :
    (r : Reader) (devices : List Device)
    → r.device_handle ≡ none
    → AllOther devices
    → let (r', found, calls) = open_device r (some devices) in
      (r'.device_handle ≡ none) × (found ≡ false) × (calls ≡ reads 0 devices)
unfolding open_device open_loop
open_device-none r devices no_handle os =
    let all : open_loop 0 devices none ≡ (none, reads 0 devices) =
      ap (λ ds. open_loop 0 ds none) (sym (append-nil devices))
      ∙ open_loop-others 0 (length devices) devices [] os (omega arith)
      ∙ ap (λ calls. (none, calls)) (append-nil (reads 0 devices)) in
    (ground (arith, no_handle, all), ground (arith, no_handle, all), ground (arith, no_handle, all))

-- With no device open, a PSP that can not be opened, behind devices that are none, and not the
-- last of the list, makes `Open` read the list after it was given back.
pub open_device-freed :
    (r : Reader) (others rest : List Device) (d next : Device)
    → r.device_handle ≡ none
    → AllOther others
    → IsPsp d
    → opened_handle d ≡ none
    → let (r', found, calls) = open_device r (some (others ++ (d ∷ next ∷ rest))) in
      (more : List UsbCall) × (calls
        ≡ reads 0 others
          ++ (read_list (length others) ∷ free_list ∷ read_list (length others + 1) ∷ more))
unfolding open_device open_loop
open_device-freed r others rest d next no_handle os p refused =
    let n = length others in
    rw
      (
        no_handle,
        open_loop-others 0 n others (d ∷ next ∷ rest) os (omega arith),
        try_device-refused n d p refused,
        (try_device-reads (n + 1) next).1,
      )
      (_, refl)
