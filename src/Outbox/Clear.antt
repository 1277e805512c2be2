-- ===== src/Outbox/Clear.antt =====
-- src/lib/sync/pending-store.ts, `clearAcked`: the rows that it takes away.
use concord_dev.Outbox.Rows.{get-delete}
use concord_dev.Base.{
  ◌≡◌, inl, inr, Bool, false, ◌&&◌, ◌||◌, Option, none, some, List, [], ◌∷◌, arith, if◌then◌else◌,
  Option-cases,
}
use concord_dev.Base.Text.{Text, text_eq, text_eq_iff}
use concord_dev.Outbox.{
  durably_acked, contains, PendingOpRecord, clear_loop, key, same_state, get, delete,
}

-- An id of the list that is covered has this key.
unfoldable pub names_covered : Text → Text → List Text → List Text → Bool
names_covered storage_id k covered [] = false
names_covered storage_id k covered (id ∷ ids) =
    contains id covered && text_eq (key storage_id id) k || names_covered storage_id k covered ids

abbrev pub is_acked : Option PendingOpRecord → Bool
is_acked none = false
is_acked (some r) = same_state r.state durably_acked

-- A row is removed exactly when it is acknowledged and named by a covered id; every other row
-- stays as it is.
pub get-clear_loop :
    (storage_id k : Text) (covered ids : List Text) (rows : List PendingOpRecord)
    → get k (clear_loop storage_id covered ids rows).0 ≡ (
        if is_acked (get k rows) && names_covered storage_id k covered ids
        then none
        else get k rows)
unfolding clear_loop names_covered
get-clear_loop storage_id k covered [] rows = ground arith
get-clear_loop storage_id k covered (id ∷ ids) rows =
    let j = key storage_id id in
    elim (Option-cases (get j rows)) [
      | inl e ↦
          rw (e, clear_loop)
            (ground (arith, text_eq_iff j k, get-clear_loop storage_id k covered ids rows))
      | inr (r, e) ↦
          rw (e, clear_loop)
            (ground (
              arith,
              text_eq_iff j k,
              get-delete k j rows,
              get-clear_loop storage_id k covered ids rows,
              get-clear_loop storage_id k covered ids (delete j rows),
            ))
    ]
