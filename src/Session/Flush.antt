-- ===== src/Session/Flush.antt =====
-- src/lib/sync/sync-session.ts, `flushOutbox`: what goes to the server, and what is marked as sent.
use mathlib.Core.Path.{ap₂}
use concord_dev.Identity.Parsing.{split_colon-format}
use concord_dev.Base.Decimal.{print}
use concord_dev.Session.{Caller, Session, sends_ops, marks_sent}
use concord_dev.Outbox.{PendingOpRecord, PendingOpRecord, PendingOpRecord, key}
use concord_dev.Identity.{split_colon, format_op_identity}
use concord_dev.Base.Text.{Text, Text, Text, Text}
use concord_dev.Session.Outbound.{last_two, wire_id, send_batch, join_colon, Reading, max_batch}
use concord_dev.Base.{
  ℕ, zero, suc, ◌+◌, ◌≤◌, ◌<◌, ◌≡◌, inl, inr, refl, sym, ap, ◌∙◌, true, false, some, List, [], ◌∷◌,
  ◌++◌, arith, length, Bool-cases, ◌==◌, map, take, length-take,
}

last_two-cons : (x : Text) (ys : List Text) → 2 ≤ length ys → last_two (x ∷ ys) ≡ last_two ys
unfolding last_two
last_two-cons x [] h = absurd (omega arith)
last_two-cons x (a ∷ []) h = absurd (omega arith)
last_two-cons x (a ∷ b ∷ ys) h = refl

-- A list whose last two segments are these, behind at least one more.
abbrev EndsIn : Text → Text → List Text → Type 0
EndsIn a b segments =
    (x : Text) × (ys : List Text) × (segments ≡ x ∷ ys)
    × (2 ≤ length ys)
    × (last_two ys ≡ a ∷ b ∷ [])

split_colon-EndsIn :
    (s t a b : Text) → split_colon t ≡ a ∷ b ∷ [] → EndsIn a b (split_colon (s ++ (b':' ∷ t)))
unfolding split_colon
split_colon-EndsIn [] t a b h =
    ([], split_colon t, refl, omega (arith, ap length h), unfold last_two in ap last_two h)
split_colon-EndsIn (c ∷ s) t a b h =
    let (x, ys, e, long, last) = split_colon-EndsIn s t a b h in
    elim (Bool-cases (c == b':')) [
      | inl colon ↦
          ([], x ∷ ys, rw (colon, e) refl, omega (arith, long), last_two-cons x ys long ∙ last)
      | inr other ↦ (c ∷ x, ys, rw (other, e) refl, long, last)
    ]

-- A row of the store with this storage id.
abbrev pub IsOwn : Text → PendingOpRecord → Type 0
IsOwn storage_id row =
    (replica : ℕ) × (counter : ℕ) × (row.id ≡ key storage_id (format_op_identity replica counter))

abbrev pub AllOwn : Text → List PendingOpRecord → Type 0
AllOwn storage_id [] = Unit {0}
AllOwn storage_id (row ∷ rows) = IsOwn storage_id row × AllOwn storage_id rows

wire_id-key :
    (storage_id : Text) (row : PendingOpRecord)
    → IsOwn storage_id row
    → key storage_id (wire_id row) ≡ row.id
unfolding wire_id join_colon
wire_id-key storage_id row (replica, counter, e) =
    let (x, ys, f, long, last) =
      split_colon-EndsIn storage_id (format_op_identity replica counter) (print replica)
        (print counter) (split_colon-format replica counter) in
    let ids : last_two (split_colon row.id) ≡ print replica ∷ print counter ∷ [] =
      ap last_two (ap split_colon e ∙ f) ∙ last_two-cons x ys long ∙ last in
    let joined : wire_id row ≡ format_op_identity replica counter =
      unfold format_op_identity in ap join_colon ids in
    ap (key storage_id) joined ∙ sym e

keys-take :
    (storage_id : Text) (n : ℕ) (rows : List PendingOpRecord)
    → AllOwn storage_id rows
    → map (key storage_id) (map wire_id (take n rows))
      ≡ map (λ (row : PendingOpRecord). row.id) (take n rows)
keys-take storage_id zero rows own = refl
keys-take storage_id (suc n) [] own = refl
keys-take storage_id (suc n) (row ∷ rows) own =
    ap₂ ◌∷◌ (wire_id-key storage_id row own.0) (keys-take storage_id n rows own.1)

-- A flush that finds unacknowledged rows of its own store, and whose send does not throw, sends the
-- operations of the first 512 of them at most, in their order and under the next batch number, and
-- then marks as sent exactly the rows that it sent.
pub send_batch-own :
    (r : Reading) (caller : Caller) (storage_id : Text) (rows : List PendingOpRecord) (s : Session)
    → r.sends ≡ true
    → 0 < length rows
    → AllOwn storage_id rows
    → let batch = take max_batch rows in
      let t = send_batch r caller (some rows) s in
      (ids : List Text) × (t.log
        ≡ marks_sent ids
          ∷ sends_ops s.next_batch_id (map (λ (row : PendingOpRecord). row.op) batch)
          ∷ s.log)
      × (map (key storage_id) ids ≡ map (λ (row : PendingOpRecord). row.id) batch)
      × (length batch ≤ 512)
      × (t.next_batch_id ≡ s.next_batch_id + 1)
unfolding send_batch
send_batch-own r caller storage_id rows s sends some_rows own =
    let more : (length rows == 0) ≡ false = ground (arith, some_rows) in
    (
      map wire_id (take max_batch rows),
      rw (more, sends) refl,
      keys-take storage_id max_batch rows own,
      omega (arith, length-take {0} max_batch rows),
      rw (more, sends) refl,
    )
