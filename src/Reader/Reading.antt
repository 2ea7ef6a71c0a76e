-- ===== src/Reader/Reading.antt =====
-- `USBReader` reading a packet of the user's channel.
use cwusb.Base.{
  ℕ, ◌≤◌, ◌≡◌, sym, ap, ◌∙◌, true, false, List, [], ◌∷◌, ◌++◌, append_assoc, Bytes, length, drop,
  length-append, length-drop, Result, ok, err, Fault, Result-cases, inl, inr, int_lt, ltb, ◌&&◌,
  get32, add32, sub32, arith,
}
use cwusb.ReceiveThread.{ReceiveThread}
use cwusb.Usb.{empty_stitch_wifi_packet}
use cwusb.Reader.State.{Reader}
use cwusb.Reader.Transfers.{Transfer, Write}
use cwusb.Reader.Receive.{
  copy_packet, handle_first, handle_next, handle_asynchronous, receive_callback,
}
use cwusb.Reader.Loop.{ErrorCodes, read_packet}
use cwusb.Reader.Fields.{psp_next, get32_magic}
use cwusb.Reader.Delivery.{read_of, IsOpen, loaded, read_packet-loaded, receive_callback-async}

-- The device is open and checked, nothing has gone wrong, and no frame is half sent.
pub record IsReading (r : Reader) : Type 0 where
  pub opened : IsOpen r
  pub going : r.stop_request ≡ false
  pub checked : r.usb_check_successful ≡ true
  pub no_error : r.error ≡ false
  pub not_sending : r.send_stitching ≡ false
  pub retries : int_lt r.retry_counter r.max_fatal_retries ≡ true
  pub may_retry : int_lt 0 r.max_fatal_retries ≡ true

-- All but what the stitching code writes to.
abbrev no_thread : ReceiveThread
no_thread = record {
  max_buffer_size = 0;
  done = false;
  last_received_message = empty_stitch_wifi_packet;
  queue = [];
  stop_request = false;
  running = false;
}

abbrev core : Reader → Reader
core r = record r {
  actual_length = 0;
  receive_stitching = false;
  stitching_length = 0;
  receive_thread = no_thread;
}

handle_first-core : (r : Reader) (n : ℕ) {r' : Reader} → handle_first r n ≡ ok r' → core r' ≡ core r
unfolding handle_first
handle_first-core r n e =
    elim (Result-cases (
      copy_packet r.temporary_receive_buffer 24 n
        (ltb 488 (get32 r.temporary_receive_buffer 16)))) [
          | inr (f, fails) ↦ absurd (ground (arith, fails, e))
          | inl (p, copies) ↦ ground (arith, copies, e)
        ]

handle_next-core : (r : Reader) (n : ℕ) {r' : Reader} → handle_next r n ≡ ok r' → core r' ≡ core r
unfolding handle_next
handle_next-core r n e =
    let total = add32 r.stitching_length (sub32 n 8) in
    elim (Result-cases
      (copy_packet r.temporary_receive_buffer 8 n (ltb 504 n && int_lt total r.actual_length))) [
        | inr (f, fails) ↦ absurd (ground (arith, fails, e))
        | inl (p, copies) ↦ ground (arith, copies, e)
      ]

handle_asynchronous-core :
    (r : Reader) (n : ℕ) {r' : Reader} → handle_asynchronous r n ≡ ok r' → core r' ≡ core r
unfolding handle_asynchronous
handle_asynchronous-core r n {r'} e =
    ground (arith, e, handle_first-core r n {r' = r'}, handle_next-core r n {r' = r'})

-- A packet that the stitching code accepts for its magic and its length.
pub record IsAsync (w : Bytes) : Type 0 where
  pub rest : Bytes
  pub starts : w ≡ psp_next ++ rest
  pub long : 12 ≤ length w
  pub small : length w ≤ 512

abbrev pub AllAsync : List Bytes → Type 0
AllAsync [] = Unit {0}
AllAsync (w ∷ ws) = IsAsync w × AllAsync ws

core-IsReading :
    (r : Reader) (w : Bytes) (r' : Reader)
    → IsReading r
    → IsAsync w
    → core r' ≡ core (loaded r w)
    → IsReading (record r' { length = 0 })
core-IsReading r w r' v a same = record {
  opened = record {
    handle = v.opened.handle;
    is_open = ap (λ x. x.device_handle) same ∙ v.opened.is_open;
    array =
        ap (λ x. length x.temporary_receive_buffer) same
        ∙ omega (
          arith,
          length-append w (drop (length w) r.temporary_receive_buffer),
          length-drop (length w) r.temporary_receive_buffer,
          v.opened.array,
          a.small,
        );
  };
  going = ap (λ x. x.stop_request) same ∙ v.going;
  checked = ap (λ x. x.usb_check_successful) same ∙ v.checked;
  no_error = ap (λ x. x.error) same ∙ v.no_error;
  not_sending = ap (λ x. x.send_stitching) same ∙ v.not_sending;
  retries = ap (λ x. int_lt x.retry_counter x.max_fatal_retries) same ∙ v.may_retry;
  may_retry = ap (λ x. int_lt 0 x.max_fatal_retries) same ∙ v.may_retry;
}

receive_callback-fails :
    (r : Reader) (rest : Bytes) (t : Transfer) {f : Fault}
    → r.temporary_receive_buffer ≡ psp_next ++ rest
    → 12 ≤ r.length
    → handle_asynchronous r r.length ≡ err f
    → receive_callback r t ≡ err f
unfolding receive_callback
receive_callback-fails r rest t b long e =
    ground (arith, e, ap (λ x. get32 x 0) b ∙ get32_magic rest)

ok_fst :
    {r r' : Reader} {ws ws' : List Write}
    → ◌≡◌ {A = Result (Reader × List Write)} (ok (r, ws)) (ok (r', ws'))
    → r ≡ r'
ok_fst e = ground (arith, e)

-- A read of such a packet, whatever a hello's write would do.
module _ (codes : ErrorCodes) (r : Reader) (w : Bytes) (v : IsReading r) (a : IsAsync w) where
  tail : Bytes
  tail = drop (length w) r.temporary_receive_buffer

  buffer : w ++ tail ≡ psp_next ++ (a.rest ++ tail)
  unfolding tail
  buffer = ap (λ x. x ++ tail) a.starts ∙ append_assoc psp_next a.rest tail

  loads : (t : Transfer) → read_packet codes r (read_of w) t ≡ receive_callback (loaded r w) t
  loads t = read_packet-loaded codes r w t v.opened (omega (arith, a.long)) a.small

  pub read_packet-handled :
      {r₂ : Reader} (t : Transfer)
      → handle_asynchronous (loaded r w) (length w) ≡ ok r₂
      → read_packet codes r (read_of w) t ≡ ok (record r₂ { length = 0 }, [])
  unfolding tail
  read_packet-handled t handled =
      loads t ∙ receive_callback-async (loaded r w) (a.rest ++ tail) t buffer a.long a.small handled

  pub handled-read_packet :
      (t : Transfer) {r₁ : Reader} {writes : List Write}
      → read_packet codes r (read_of w) t ≡ ok (r₁, writes)
      → (r₂ : Reader) × (handle_asynchronous (loaded r w) (length w) ≡ ok r₂)
        × (record r₂ { length = 0 } ≡ r₁)
  unfolding tail
  handled-read_packet t reads = elim (Result-cases (handle_asynchronous (loaded r w) (length w))) [
    | inr (f, fails) ↦ absurd (
        ground (
          arith,
          reads,
          loads t,
          receive_callback-fails (loaded r w) (a.rest ++ tail) t buffer a.long fails,
        ))
    | inl (r₂, handled) ↦ (r₂, handled, ok_fst (sym (read_packet-handled t handled) ∙ reads))
  ]

  pub read_packet-IsReading :
      (t : Transfer) {r₁ : Reader} {writes : List Write}
      → read_packet codes r (read_of w) t ≡ ok (r₁, writes)
      → ((t' : Transfer) → read_packet codes r (read_of w) t' ≡ ok (r₁, []))
        × IsReading r₁
        × (r₁.send_thread ≡ r.send_thread)
  read_packet-IsReading t reads =
      let (r₂, handled, same) = handled-read_packet t reads in
      let kept = handle_asynchronous-core (loaded r w) (length w) handled in
      (
        λ t'. read_packet-handled t' handled ∙ ap (λ x. ok (x, [])) same,
        rw same at (core-IsReading r w r₂ v a kept),
        ap (λ x. x.send_thread) (sym same) ∙ ap (λ x. x.send_thread) kept,
      )
