-- ===== src/Outbox/History.antt =====
-- src/lib/sync/pending-store.ts: histories of one database, which the stores of several documents
-- and tabs share.
use concord_dev.Outbox.Clear.{get-clear_loop}
use concord_dev.Outbox.Add.{get-add_pending_old}
use concord_dev.Outbox.Forward.{names, get-transition_all}
use concord_dev.Base.{
  ℕ, ◌≡◌, Bool, false, ◌||◌, some, List, [], ◌∷◌, arith, ◌⊎◌, inl, ◌∙◌, Bool-cases, inr, refl,
}
use concord_dev.Base.Text.{Text}
use concord_dev.Outbox.{
  sent, durably_acked, OpSendState, Database, PendingOpRecord, add_pending, get, advance,
  same_state, mark_sent, mark_durably_acked, clear_acked, transition_all, clear_loop,
}

-- One write transaction of the store with this storage id.
pub data Write : Type 0 where
  adds : Text → Text → List ℕ → ℕ → ℕ → Write
  marks_sent : Text → List Text → Write
  acks : Text → List Text → Write
  -- the ids that the engine's log covers, and the ids to clear
  clears : Text → List Text → List Text → Write

unfoldable pub step : Database → Write → Database
step db (adds storage_id id op now saved_at) = (add_pending storage_id id op now saved_at db).0
step db (marks_sent storage_id ids) = mark_sent storage_id ids db
step db (acks storage_id ids) = mark_durably_acked storage_id ids db
step db (clears storage_id covered ids) = (clear_acked storage_id covered ids db).0

unfoldable pub run : Database → List Write → Database
run db [] = db
run db (w ∷ ws) = run (step db w) ws

-- An acknowledgement names the row with this key.
abbrev pub acks_key : Text → Write → Bool
acks_key k (acks storage_id ids) = names storage_id k ids
acks_key k _ = false

unfoldable pub acked_in : Text → List Write → Bool
acked_in k [] = false
acked_in k (w ∷ ws) = acks_key k w || acked_in k ws

-- The operation of the row is still stored under the key, with its bytes and its place in the
-- order, and is not acknowledged.
pub record IsKept (k : Text) (r : PendingOpRecord) (db : Database) : Type 0 where
  pub row : PendingOpRecord
  pub found : get k db.outbox ≡ some row
  pub unacked : same_state row.state durably_acked ≡ false
  pub same_op : row.op ≡ r.op
  pub same_seq : row.seq ≡ r.seq

advance-op : (st : OpSendState) (r : PendingOpRecord) → (advance st r).op ≡ r.op
advance-op st r = ground arith

advance-seq : (st : OpSendState) (r : PendingOpRecord) → (advance st r).seq ≡ r.seq
advance-seq st r = ground arith

advance-unacked :
    (r : PendingOpRecord)
    → same_state r.state durably_acked ≡ false
    → same_state (advance sent r).state durably_acked ≡ false
advance-unacked r e = ground arith

get-mark_sent :
    (storage_id k : Text) (ids : List Text) (r : PendingOpRecord) (rows : List PendingOpRecord)
    → get k rows ≡ some r
    → (get k (transition_all storage_id sent ids rows) ≡ some r)
      ⊎ (get k (transition_all storage_id sent ids rows) ≡ some (advance sent r))
get-mark_sent storage_id k ids r rows e = elim (Bool-cases (names storage_id k ids)) [
  | inl named ↦ inr (get-transition_all storage_id k sent ids rows ∙ rw (named, e) refl)
  | inr other ↦ inl (get-transition_all storage_id k sent ids rows ∙ rw (other, e) refl)
]

get-acks_other :
    (storage_id k : Text) (ids : List Text) (r : PendingOpRecord) (rows : List PendingOpRecord)
    → names storage_id k ids ≡ false
    → get k rows ≡ some r
    → get k (transition_all storage_id durably_acked ids rows) ≡ some r
get-acks_other storage_id k ids r rows other e =
    get-transition_all storage_id k durably_acked ids rows ∙ rw (other, e) refl

get-clear_unacked :
    (storage_id k : Text) (covered ids : List Text) (r : PendingOpRecord)
    (rows : List PendingOpRecord)
    → same_state r.state durably_acked ≡ false
    → get k rows ≡ some r
    → get k (clear_loop storage_id covered ids rows).0 ≡ some r
get-clear_unacked storage_id k covered ids r rows waiting e =
    get-clear_loop storage_id k covered ids rows ∙ rw (e, waiting) refl

still :
    {k : Text} {r : PendingOpRecord} {db db' : Database} (kept : IsKept k r db)
    → get k db'.outbox ≡ some kept.row
    → IsKept k r db'
still kept e = record {
  row = kept.row;
  found = e;
  unacked = kept.unacked;
  same_op = kept.same_op;
  same_seq = kept.same_seq;
}

step-IsKept :
    (k : Text) (r : PendingOpRecord) (db : Database) (w : Write)
    → acks_key k w ≡ false
    → IsKept k r db
    → IsKept k r (step db w)
unfolding step mark_sent mark_durably_acked clear_acked
step-IsKept k r db (adds storage_id id op now saved_at) h kept =
    still kept (get-add_pending_old storage_id id op now saved_at db k kept.row kept.found)
step-IsKept k r db (marks_sent storage_id ids) h kept =
    elim (get-mark_sent storage_id k ids kept.row db.outbox kept.found) [
      | inl e ↦ still kept e
      | inr e ↦ record {
        row = advance sent kept.row;
        found = e;
        unacked = advance-unacked kept.row kept.unacked;
        same_op = advance-op sent kept.row ∙ kept.same_op;
        same_seq = advance-seq sent kept.row ∙ kept.same_seq;
      }
    ]
step-IsKept k r db (acks storage_id ids) h kept =
    still kept (get-acks_other storage_id k ids kept.row db.outbox h kept.found)
step-IsKept k r db (clears storage_id covered ids) h kept =
    still kept
      (get-clear_unacked storage_id k covered ids kept.row db.outbox kept.unacked kept.found)

-- Through a history of writes in which no acknowledgement names it, an operation that is not yet
-- acknowledged stays in the store with its bytes and its sequence number.
pub run-IsKept :
    (k : Text) (r : PendingOpRecord) (db : Database) (ws : List Write)
    → acked_in k ws ≡ false
    → IsKept k r db
    → IsKept k r (run db ws)
unfolding run acked_in
run-IsKept k r db [] h kept = kept
run-IsKept k r db (w ∷ ws) h kept =
    run-IsKept k r (step db w) ws (ground (arith, h))
      (step-IsKept k r db w (ground (arith, h)) kept)
