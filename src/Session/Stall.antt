-- ===== src/Session/Stall.antt =====
-- src/lib/sync/sync-session.ts, `flushOutbox`, over SyncTransport.sendClientOps: a batch that is too
-- large to be sent.
use concord_dev.Session.{Session, Session, Session, by_ready, by_timer}
use concord_dev.Session.Outbound.{send_batch, Reading, max_batch}
use concord_dev.Wire.{
  encode_client_ops, max_batch_payload_bytes, payload_bytes, DecodeError, number, err,
  bad_binary_body,
}
use concord_dev.Outbox.{PendingOpRecord, PendingOpRecord, PendingOpRecord}
use concord_dev.Transport.{Transport, Transport, send_client_ops}
use concord_dev.Base.{
  ℕ, suc, ◌+◌, ◌<◌, ◌≡◌, refl, ap, ◌∙◌, Bool, true, false, Option, none, some, List, [], ◌∷◌, arith,
  length, if◌then◌else◌, map, take, ◌==◌,
}

abbrev pub is_some : Option Transport → Bool
is_some none = false
is_some (some t) = true

abbrev pub batch_ops : List PendingOpRecord → List (List ℕ)
batch_ops rows = map (λ (row : PendingOpRecord). row.op) (take max_batch rows)

-- What the transport answers to a flush of these rows.
abbrev pub reading_of : Transport → List PendingOpRecord → Session → Reading
reading_of t rows s = record {
  status = t.status;
  sends = is_some (send_client_ops s.next_batch_id (batch_ops rows) t);
}

-- One flush after the other, of the timer or behind a catch-up, while the outbox keeps these rows.
unfoldable pub flushes : List PendingOpRecord → List (Transport × Bool) → Session → Session
flushes rows [] s = s
flushes rows ((t, by_catchup) ∷ ts) s =
    flushes rows ts
      (send_batch (reading_of t rows s) (if by_catchup then by_ready else by_timer) (some rows) s)

encode-oversized :
    (n : ℕ) (ops : List (List ℕ))
    → max_batch_payload_bytes < payload_bytes ops
    → (e : DecodeError) × (encode_client_ops (record { batch_id = number n; ops = ops }) ≡ err e)
unfolding encode_client_ops
encode-oversized n ops h = (bad_binary_body, ground (arith, h))

send_client_ops-oversized :
    (n : ℕ) (ops : List (List ℕ)) (t : Transport)
    → max_batch_payload_bytes < payload_bytes ops
    → send_client_ops n ops t ≡ none
unfolding send_client_ops
send_client_ops-oversized n ops t h = let (e, k) = encode-oversized n ops h in ground (arith, k)

send_batch-throws :
    (r : Reading) (by_catchup : Bool) (rows : List PendingOpRecord) (s : Session)
    → 0 < length rows
    → r.sends ≡ false
    → send_batch r (if by_catchup then by_ready else by_timer) (some rows) s
      ≡ record s { next_batch_id = s.next_batch_id + 1 }
unfolding send_batch
send_batch-throws r true rows s h e =
    let more : (length rows == 0) ≡ false = ground (arith, h) in rw (more, e) refl
send_batch-throws r false rows s h e =
    let more : (length rows == 0) ≡ false = ground (arith, h) in rw (more, e) refl

-- If the first 512 unacknowledged operations have more than 4 MiB together, no number of flushes, over
-- whatever connections, sends any of them or tells of an error: only batch numbers are used up.
pub flushes-oversized :
    (rows : List PendingOpRecord) (ts : List (Transport × Bool)) (s : Session)
    → 0 < length rows
    → max_batch_payload_bytes < payload_bytes (batch_ops rows)
    → flushes rows ts s ≡ record s { next_batch_id = s.next_batch_id + length ts }
unfolding flushes
flushes-oversized rows [] s some_rows large =
    let e : s.next_batch_id ≡ s.next_batch_id + 0 = omega arith in
    ap (λ (n : ℕ). record s { next_batch_id = n }) e
flushes-oversized rows ((t, by_catchup) ∷ ts) s some_rows large =
    let e : is_some (send_client_ops s.next_batch_id (batch_ops rows) t) ≡ false =
      ap is_some (send_client_ops-oversized s.next_batch_id (batch_ops rows) t large) in
    let next : Session = record s { next_batch_id = s.next_batch_id + 1 } in
    let count : s.next_batch_id + 1 + length ts ≡ s.next_batch_id + suc (length ts) = omega arith in
    ap (flushes rows ts) (send_batch-throws (reading_of t rows s) by_catchup rows s some_rows e)
    ∙ flushes-oversized rows ts next some_rows large
    ∙ ap (λ (n : ℕ). record s { next_batch_id = n }) count
