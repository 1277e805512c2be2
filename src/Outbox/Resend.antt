-- ===== src/Outbox/Resend.antt =====
-- src/lib/sync/pending-store.ts: the resend set after an operation was added.
use concord_dev.Outbox.Add.{new_row, get-add_pending_new}
use concord_dev.Outbox.Order.{unacked_ops-Has}
use concord_dev.Outbox.History.{IsKept, Write, Write, Write, acked_in, run, run-IsKept}
use concord_dev.Outbox.Rows.{Has, get-id, get-Has}
use concord_dev.Base.{
  ℕ, ◌<◌, ◌≡◌, ◌⊎◌, inl, inr, refl, Bool, true, false, none, List, [], ◌∷◌, ◌++◌, arith,
}
use concord_dev.Base.Text.{Text, in_range, in_range-append}
use concord_dev.Outbox.{
  pending, sent, durably_acked, OpSendState, same_state, Database, PendingOpRecord, unacked_ops,
  get, key, add_pending, next_sequence,
}
use mathlib.Core.Path.{subst}
use mathlib.Core.List.{append_assoc}

unacked_cases : (s : OpSendState) → same_state s durably_acked ≡ false → (s ≡ pending) ⊎ (s ≡ sent)
unacked_cases pending e = inl refl
unacked_cases sent e = inr refl
unacked_cases durably_acked e = absurd (ground (arith, e))

-- The resend set of a store has a row with this key, these bytes and this sequence number.
pub record Resends (locale_le : Text → Text → Bool) (storage_id k : Text) (op : List ℕ) (seq : ℕ)
    (db : Database) : Type 0 where
  pub row : PendingOpRecord
  pub listed : Has row (unacked_ops locale_le storage_id db)
  pub same_key : row.id ≡ k
  pub same_op : row.op ≡ op
  pub same_seq : row.seq ≡ seq

in_range-key :
    (storage_id : Text) (c : ℕ) (id : Text)
    → c < 0xffff
    → in_range (storage_id ++ b':' ∷ []) (storage_id ++ b':' ∷ c ∷ id) ≡ true
in_range-key storage_id c id small =
    let prefix = storage_id ++ b':' ∷ [] in
    subst (λ k. in_range prefix k ≡ true) (append_assoc storage_id (b':' ∷ []) (c ∷ id))
      (in_range-append prefix c id small)

kept-Resends :
    (locale_le : Text → Text → Bool) (storage_id id : Text) (c : ℕ) (k : Text) (r : PendingOpRecord)
    (db : Database)
    → c < 0xffff
    → k ≡ storage_id ++ b':' ∷ c ∷ id
    → IsKept k r db
    → Resends locale_le storage_id k r.op r.seq db
kept-Resends locale_le storage_id id c k r db small split kept =
    let there = get-id k db.outbox kept.row kept.found in
    record {
      row = kept.row;
      listed = (unacked_ops-Has locale_le storage_id db kept.row).1 (
        get-Has k db.outbox kept.row kept.found,
        rw (there, split) (in_range-key storage_id c id small),
        unacked_cases kept.row.state kept.unacked,
      );
      same_key = there;
      same_op = kept.same_op;
      same_seq = kept.same_seq;
    }

added-IsKept :
    (storage_id id : Text) (op : List ℕ) (now saved_at : ℕ) (db : Database) (ws : List Write)
    → get (key storage_id id) db.outbox ≡ none
    → (add_pending storage_id id op now saved_at db).1 ≡ true
    → acked_in (key storage_id id) ws ≡ false
    → IsKept
        (key storage_id id)
        (new_row storage_id id op now saved_at db.last_issued)
        (run (add_pending storage_id id op now saved_at db).0 ws)
added-IsKept storage_id id op now saved_at db ws fresh written quiet =
    let row = new_row storage_id id op now saved_at db.last_issued in
    run-IsKept (key storage_id id) row (add_pending storage_id id op now saved_at db).0 ws quiet
      (record {
        row = row;
        found = get-add_pending_new storage_id id op now saved_at db fresh written;
        unacked = refl;
        same_op = refl;
        same_seq = refl;
      })

-- A new operation whose transaction was written is in the resend set, with its bytes and the
-- sequence number that it was given, after every later history of writes, of this or other stores,
-- in which no acknowledgement names it. Its id begins with a unit below 0xffff.
pub add_pending-Resends :
    (locale_le : Text → Text → Bool) (storage_id id : Text) (c : ℕ) (op : List ℕ) (now saved_at : ℕ)
    (db : Database) (ws : List Write)
    → c < 0xffff
    → get (key storage_id (c ∷ id)) db.outbox ≡ none
    → (add_pending storage_id (c ∷ id) op now saved_at db).1 ≡ true
    → acked_in (key storage_id (c ∷ id)) ws ≡ false
    → Resends locale_le storage_id
        (key storage_id (c ∷ id))
        op
        (next_sequence now db.last_issued)
        (run (add_pending storage_id (c ∷ id) op now saved_at db).0 ws)
add_pending-Resends locale_le storage_id id c op now saved_at db ws small fresh written quiet =
    let after = run (add_pending storage_id (c ∷ id) op now saved_at db).0 ws in
    kept-Resends locale_le storage_id id c (key storage_id (c ∷ id))
      (new_row storage_id (c ∷ id) op now saved_at db.last_issued) after small refl
      (added-IsKept storage_id (c ∷ id) op now saved_at db ws fresh written quiet)

-- `${base}:replica:${id}` of `acquireReplica`, the storage id of a further tab.
abbrev pub tab_storage_id : Text → Text → Text
tab_storage_id base replica =
    base ++ b':' ∷ b'r' ∷ b'e' ∷ b'p' ∷ b'l' ∷ b'i' ∷ b'c' ∷ b'a' ∷ b':' ∷ replica

-- The resend set of a document's first tab also has the operations that a further tab of the same
-- document added, until an acknowledgement names them.
pub add_pending-Resends_shared :
    (locale_le : Text → Text → Bool) (base replica id : Text) (op : List ℕ) (now saved_at : ℕ)
    (db : Database) (ws : List Write)
    → get (key (tab_storage_id base replica) id) db.outbox ≡ none
    → (add_pending (tab_storage_id base replica) id op now saved_at db).1 ≡ true
    → acked_in (key (tab_storage_id base replica) id) ws ≡ false
    → Resends locale_le base
        (key (tab_storage_id base replica) id)
        op
        (next_sequence now db.last_issued)
        (run (add_pending (tab_storage_id base replica) id op now saved_at db).0 ws)
add_pending-Resends_shared locale_le base replica id op now saved_at db ws fresh written quiet =
    let storage_id = tab_storage_id base replica in
    kept-Resends locale_le base
      (b'e' ∷ b'p' ∷ b'l' ∷ b'i' ∷ b'c' ∷ b'a' ∷ b':' ∷ (replica ++ b':' ∷ id)) b'r'
      (key storage_id id) (new_row storage_id id op now saved_at db.last_issued)
      (run (add_pending storage_id id op now saved_at db).0 ws) (omega arith)
      (append_assoc base (b':' ∷ b'r' ∷ b'e' ∷ b'p' ∷ b'l' ∷ b'i' ∷ b'c' ∷ b'a' ∷ b':' ∷ replica)
        (b':' ∷ id))
      (added-IsKept storage_id id op now saved_at db ws fresh written quiet)
