-- ===== src/Outbox/Counts.antt =====
-- src/lib/sync/pending-store.ts, `stateCounts` and `ackedIds`.
use concord_dev.Outbox.Order.{IsIn-iff}
use concord_dev.Outbox.Rows.{Has}
use concord_dev.Base.{
  suc, ◌+◌, ◌≡◌, inl, inr, refl, sym, ap, ◌∙◌, Bool, true, ◌&&◌, List, [], ◌∷◌, ◌++◌, arith, length,
  Bool-cases,
}
use concord_dev.Base.Text.{Text, text_eq, text_eq_iff, in_range, text_le}
use concord_dev.Outbox.{
  pending, sent, durably_acked, insert_row, sort_rows, unacked_ops, PendingOpRecord, contains,
  state_counts, get_all, Database, StateCounts, same_state, acked_ids, key,
}
use concord_dev.Base.{map, drop}
use mathlib.Core.Path.{subst}
use mathlib.Core.List.{append_assoc}

module _ (locale_le : Text → Text → Bool) where
  length-insert_row :
      (r : PendingOpRecord) (xs : List PendingOpRecord)
      → length (insert_row locale_le r xs) ≡ suc (length xs)
  unfolding insert_row
  length-insert_row r [] = refl
  length-insert_row r (x ∷ xs) = ground (arith, length-insert_row r xs)

  length-sort_rows : (xs : List PendingOpRecord) → length (sort_rows locale_le xs) ≡ length xs
  unfolding sort_rows
  length-sort_rows [] = refl
  length-sort_rows (x ∷ xs) =
      length-insert_row x (sort_rows locale_le xs) ∙ ap suc (length-sort_rows xs)

length-append : (xs ys : List PendingOpRecord) → length (xs ++ ys) ≡ length xs + length ys
length-append [] ys = omega arith
length-append (x ∷ xs) ys = ground (arith, length-append xs ys)

-- The resend set has as many rows as the counts of pending and of sent rows say together.
pub length-unacked_ops :
    (locale_le : Text → Text → Bool) (storage_id : Text) (db : Database)
    → length (unacked_ops locale_le storage_id db)
      ≡ StateCounts.pending (state_counts storage_id db)
        + StateCounts.sent (state_counts storage_id db)
unfolding unacked_ops state_counts
length-unacked_ops locale_le storage_id db =
    let prefix = storage_id ++ b':' ∷ [] in
    length-sort_rows locale_le (get_all pending prefix db.outbox ++ get_all sent prefix db.outbox)
    ∙ length-append (get_all pending prefix db.outbox) (get_all sent prefix db.outbox)

-- A key in the range of a prefix begins with it.
pub in_range-drop : (p k : Text) → in_range p k ≡ true → p ++ drop (length p) k ≡ k
unfolding text_le
in_range-drop [] k h = refl
in_range-drop (c ∷ p) [] h = ground (arith, h)
in_range-drop (c ∷ p) (d ∷ k) h = ground (arith, in_range-drop p k, h)

-- An acknowledged row of the store with this key.
pub record AckedRow (k : Text) (rows : List PendingOpRecord) : Type 0 where
  pub row : PendingOpRecord
  pub there : Has row rows
  pub same_key : row.id ≡ k
  pub is_acked : row.state ≡ durably_acked

further :
    {k : Text} {x : PendingOpRecord} {xs : List PendingOpRecord}
    → AckedRow k xs
    → AckedRow k (x ∷ xs)
further a = record {
  row = a.row;
  there = inr a.there;
  same_key = a.same_key;
  is_acked = a.is_acked;
}

contains-map :
    (p id : Text) (rows : List PendingOpRecord)
    → contains id
        (map (λ (r : PendingOpRecord). drop (length p) r.id) (get_all durably_acked p rows))
      ≡ true
    → AckedRow (p ++ id) rows
unfolding contains get_all
contains-map p id [] h = absurd (ground (arith, h))
contains-map p id (x ∷ xs) h =
    elim (Bool-cases (same_state x.state durably_acked && in_range p x.id)) [
      | inl e ↦
          let inside = (IsIn-iff durably_acked p x).0 e in
          elim (Bool-cases (text_eq (drop (length p) x.id) id)) [
            | inl same ↦ record {
              row = x;
              there = inl refl;
              same_key =
                  sym (in_range-drop p x.id inside.1)
                  ∙ ap (λ s. p ++ s) ((text_eq_iff _ id).0 same);
              is_acked = inside.0;
            }
            | inr other ↦ further (contains-map p id xs (rw (e, other) at h))
          ]
      | inr e ↦ further (contains-map p id xs (rw e at h))
    ]

-- Each id that `ackedIds` answers is the id of an acknowledged row of this store.
pub acked_ids_sound :
    (storage_id id : Text) (db : Database)
    → contains id (acked_ids storage_id db) ≡ true
    → AckedRow (key storage_id id) db.outbox
unfolding acked_ids
acked_ids_sound storage_id id db h =
    subst (λ k. AckedRow k db.outbox) (append_assoc storage_id (b':' ∷ []) id)
      (contains-map (storage_id ++ b':' ∷ []) id db.outbox h)
