-- ===== src/Outbox/Add.antt =====
-- src/lib/sync/pending-store.ts, `addPending`: the store after it.
use concord_dev.Outbox.Rows.{get-put, get-put}
use concord_dev.Base.{
  ℕ, ◌≡◌, inl, inr, ◌∙◌, true, none, some, List, arith, if◌then◌else◌, Option-cases,
}
use concord_dev.Base.Text.{Text, text_eq, text_eq_iff, text_eq_self}
use concord_dev.Outbox.{
  pending, PendingOpRecord, add_pending, key, get, Database, next_sequence, put_new, note_counter,
  last_segment,
}

abbrev pub new_row : Text → Text → List ℕ → ℕ → ℕ → ℕ → PendingOpRecord
new_row storage_id id op now saved_at last_issued = record {
  id = key storage_id id;
  op = op;
  state = pending;
  seq = next_sequence now last_issued;
  saved_at = saved_at;
}

get-put_new :
    (k : Text) (r : PendingOpRecord) (rows : List PendingOpRecord)
    → get k rows ≡ none
    → get k (put_new r rows) ≡ (if text_eq r.id k then some r else none)
get-put_new k r rows e = elim (Option-cases (get r.id rows)) [
  | inl new ↦ rw (new, put_new) (ground (arith, get-put k r rows))
  | inr (x, old) ↦ rw (old, put_new) (ground (arith, text_eq_iff r.id k))
]

get-put_new_old :
    (k : Text) (r x : PendingOpRecord) (rows : List PendingOpRecord)
    → get k rows ≡ some x
    → get k (put_new r rows) ≡ some x
get-put_new_old k r x rows e = elim (Option-cases (get r.id rows)) [
  | inl new ↦ rw (new, put_new) (ground (arith, get-put k r rows, text_eq_iff r.id k))
  | inr (y, old) ↦ rw (old, put_new) e
]

-- Adding an operation never changes a row that is there, whether or not it is written.
pub get-add_pending_old :
    (storage_id id : Text) (op : List ℕ) (now saved_at : ℕ) (db : Database) (k : Text)
    (r : PendingOpRecord)
    → get k db.outbox ≡ some r
    → get k (add_pending storage_id id op now saved_at db).0.outbox ≡ some r
unfolding add_pending
get-add_pending_old storage_id id op now saved_at db k r e =
    elim (Option-cases (note_counter storage_id (last_segment id) db.meta)) [
      | inl stop ↦ rw (stop, add_pending) e
      | inr (meta, go) ↦
          rw (go, add_pending)
            (get-put_new_old k (new_row storage_id id op now saved_at db.last_issued) r db.outbox e)
    ]

-- A new operation that is written stands under its key as pending, with its bytes and the next
-- sequence number.
pub get-add_pending_new :
    (storage_id id : Text) (op : List ℕ) (now saved_at : ℕ) (db : Database)
    → get (key storage_id id) db.outbox ≡ none
    → (add_pending storage_id id op now saved_at db).1 ≡ true
    → get (key storage_id id) (add_pending storage_id id op now saved_at db).0.outbox
      ≡ some (new_row storage_id id op now saved_at db.last_issued)
unfolding add_pending
get-add_pending_new storage_id id op now saved_at db e written =
    elim (Option-cases (note_counter storage_id (last_segment id) db.meta)) [
      | inl stop ↦ absurd (ground (arith, rw (stop, add_pending) at written))
      | inr (meta, go) ↦
          rw (go, add_pending)
            (get-put_new (key storage_id id) (new_row storage_id id op now saved_at db.last_issued)
                db.outbox e
              ∙ ground (arith, text_eq_self (key storage_id id)))
    ]
