-- ===== src/Reader/Reads.antt =====
-- One read of a packet of the user's channel.
use cwusb.Base.{
  ℕ, suc, ◌+◌, ◌^◌, ◌≤◌, ◌<◌, ◌≡◌, refl, ap, ◌∙◌, Bool, true, false, List, [], ◌∷◌, ◌++◌,
  append_assoc, Bytes, length, drop, length-append, length-drop, Result, ok, ◌>>=◌, to_size, ltb,
  arith,
}
use cwusb.Usb.{StitchPacket}
use cwusb.ReceiveThread.{ReceiveThread, add_to_queue}
use cwusb.Reader.State.{Reader}
use cwusb.Reader.Transfers.{Transfer}
use cwusb.Reader.Receive.{handle_asynchronous}
use cwusb.Reader.Loop.{ErrorCodes, read_packet}
use cwusb.Reader.Fields.{psp_next, psp_first, sub_header, length_psp_next, length_psp_first}
use cwusb.Reader.Delivery.{
  read_of, IsOpen, loaded, read_packet-loaded, receive_callback-async, IsCopy, goes_on_stitching,
  handle_asynchronous-next, handle_asynchronous-first,
}

module _ (codes : ErrorCodes) (t : Transfer) where
  -- The reads of the packets, one after the other.
  abbrev pub read_all : List Bytes → Reader → Result Reader
  read_all [] r = ok r
  read_all (w ∷ ws) r = read_packet codes r (read_of w) t >>= λ (r', writes). read_all ws r'

-- The receive thread's queue takes `k` packets more.
abbrev pub HasRoom : ReceiveThread → ℕ → Type 0
HasRoom q k = length q.queue + k ≤ to_size q.max_buffer_size

pub queued : ReceiveThread → StitchPacket → ReceiveThread
queued q p = (add_to_queue q p).0

pub queued-keeps :
    (q : ReceiveThread) (p : StitchPacket)
    → ((queued q p).last_received_message ≡ q.last_received_message)
      × ((queued q p).stop_request ≡ q.stop_request)
      × ((queued q p).max_buffer_size ≡ q.max_buffer_size)
unfolding queued add_to_queue
queued-keeps q p = ground arith

pub queue-queued :
    (q : ReceiveThread) (p : StitchPacket) (k : ℕ)
    → HasRoom q (suc k)
    → ((queued q p).queue ≡ q.queue ++ (p ∷ [])) × HasRoom (queued q p) k
unfolding queued add_to_queue
queue-queued q p k room = ground (arith, length-append q.queue (p ∷ []))

pub queued_full :
    (q : ReceiveThread) (p : StitchPacket)
    → to_size q.max_buffer_size ≤ length q.queue
    → queued q p ≡ q
unfolding queued add_to_queue
queued_full q p full = ground (arith, full)

-- What has become of the reader after a packet of the user's channel.
pub record Received (r : Reader) (chunk : Bytes) (stitch : Bool) (r' : Reader) : Type 0 where
  pub is_open : IsOpen r'
  pub stitching : r'.receive_stitching ≡ stitch
  pub copy : StitchPacket
  pub good : IsCopy chunk stitch copy
  pub thread : r'.receive_thread ≡ queued r.receive_thread copy

module _ (codes : ErrorCodes) (t : Transfer) (r : Reader) (o : IsOpen r) (w : Bytes)
    (long : 12 ≤ length w) (small : length w ≤ 512) where
  tail : Bytes
  tail = drop (length w) r.temporary_receive_buffer

  size : length (w ++ tail) ≡ 512
  unfolding tail
  size =
      omega
        (arith, length-append w tail, length-drop (length w) r.temporary_receive_buffer, o.array)

  -- The read of a packet that the stitching code accepts.
  read_async :
      (rest : Bytes) {r' : Reader}
      → w ++ tail ≡ psp_next ++ rest
      → handle_asynchronous (loaded r w) (length w) ≡ ok r'
      → read_packet codes r (read_of w) t ≡ ok (record r' { length = 0 }, [])
  unfolding tail
  read_async rest b e =
      read_packet-loaded codes r w t o (omega arith) small
      ∙ receive_callback-async (loaded r w) rest t b long small e

  pub read_next :
      (chunk : Bytes)
      → w ≡ psp_next ++ chunk
      → r.receive_stitching ≡ true
      → r.stitching_length + length chunk ≤ r.actual_length
      → r.actual_length < 2 ^ 31
      → let stitch = goes_on_stitching r (length w) chunk in
        (r' : Reader) × (read_packet codes r (read_of w) t ≡ ok (r', []))
        × Received r chunk stitch r'
        × (r'.actual_length ≡ r.actual_length)
        × (stitch ≡ true → r'.stitching_length ≡ r.stitching_length + length chunk)
  unfolding tail queued
  read_next chunk e on within bound =
      let b : w ++ tail ≡ psp_next ++ (chunk ++ tail) =
        ap (λ x. x ++ tail) e ∙ append_assoc psp_next chunk tail in
      let (p, handled, good) =
        handle_asynchronous-next (loaded r w) chunk tail (length w) size small on b
          (omega (arith, ap length e, length-append psp_next chunk, length_psp_next)) within
          bound in
      (
        _,
        read_async (chunk ++ tail) b handled,
        record {
          is_open = record { handle = o.handle; is_open = o.is_open; array = size };
          stitching = refl;
          copy = p;
          good = good;
          thread = refl;
        },
        refl,
        λ s. rw s,
      )

  pub read_first :
      (chunk : Bytes) (total : ℕ)
      → w ≡ psp_first total ++ chunk
      → 0 < length chunk
      → r.receive_stitching ≡ false
      → total < 2 ^ 31
      → let stitch = ltb 488 total in
        (r' : Reader) × (read_packet codes r (read_of w) t ≡ ok (r', []))
        × Received r chunk stitch r'
        × (r'.actual_length ≡ total)
        × (stitch ≡ true → r'.stitching_length ≡ length chunk)
  unfolding tail queued
  read_first chunk total e pos off bound =
      let b : w ++ tail ≡ psp_first total ++ (chunk ++ tail) =
        ap (λ x. x ++ tail) e ∙ append_assoc (psp_first total) chunk tail in
      let (p, handled, good) =
        handle_asynchronous-first (loaded r w) chunk tail (length w) size small total off b
          (omega
            (arith, ap length e, length-append (psp_first total) chunk, length_psp_first total))
          pos bound in
      (
        _,
        read_async (sub_header total ++ (chunk ++ tail))
            (b ∙ append_assoc psp_next (sub_header total) (chunk ++ tail)) handled,
        record {
          is_open = record { handle = o.handle; is_open = o.is_open; array = size };
          stitching = refl;
          copy = p;
          good = good;
          thread = refl;
        },
        refl,
        λ s. rw s,
      )
