-- ===== src/Outbox/Legacy.antt =====
-- src/lib/sync/pending-store.ts, `hasLegacyUnacked`: rows of the time before storage ids.
use concord_dev.Base.{
  ℕ, ◌<◌, ◌≡◌, inl, inr, refl, false, none, List, [], ◌∷◌, ◌++◌, arith, Bool-cases, Option-cases,
}
use concord_dev.Base.Text.{Text, text_eq, text_le, text_le-append_left}
use mathlib.Core.Path.{subst⁻¹}
use mathlib.Core.List.{append_assoc}
use concord_dev.Outbox.Add.{new_row}
use concord_dev.Outbox.{
  OpSendState, in_legacy_range, count_legacy, put_new, put, get, PendingOpRecord, add_pending,
  has_legacy_unacked, Database, note_counter, last_segment, pending, sent,
}

count_legacy-put :
    (state : OpSendState) (document_id : Text) (r : PendingOpRecord) (rows : List PendingOpRecord)
    → in_legacy_range document_id r.id ≡ false
    → get r.id rows ≡ none
    → count_legacy state document_id (put r rows) ≡ count_legacy state document_id rows
unfolding count_legacy put get
count_legacy-put state document_id r [] out new = ground (arith, out)
count_legacy-put state document_id r (x ∷ xs) out new = elim (Bool-cases (text_eq x.id r.id)) [
  | inl e ↦ absurd (ground (arith, rw e at new))
  | inr e ↦
      let rest = count_legacy-put state document_id r xs out (rw e at new) in
      elim (Bool-cases (text_le r.id x.id)) [
        | inl f ↦ rw (e, f, out) (ground arith)
        | inr f ↦ rw (e, f) (ground (arith, rest))
      ]
]

count_legacy-put_new :
    (state : OpSendState) (document_id : Text) (r : PendingOpRecord) (rows : List PendingOpRecord)
    → in_legacy_range document_id r.id ≡ false
    → count_legacy state document_id (put_new r rows) ≡ count_legacy state document_id rows
count_legacy-put_new state document_id r rows out = elim (Option-cases (get r.id rows)) [
  | inl e ↦ rw (e, put_new) (count_legacy-put state document_id r rows out e)
  | inr (x, e) ↦ rw (e, put_new) refl
]

in_legacy_range-letter :
    (document_id : Text) (c : ℕ) (rest : Text)
    → b'9' < c
    → in_legacy_range document_id (document_id ++ b':' ∷ c ∷ rest) ≡ false
unfolding text_le
in_legacy_range-letter document_id c rest h =
    let above : text_le (b':' ∷ c ∷ rest) (b':' ∷ b'9' ∷ 0xffff ∷ []) ≡ false = ground (arith, h) in
    ground
      (arith, above, text_le-append_left document_id (b':' ∷ c ∷ rest) (b':' ∷ b'9' ∷ 0xffff ∷ []))

-- A store whose storage id goes on behind the document's id and a colon with a unit above the digit 9,
-- as that of an account or of a further tab does, adds no operation that counts as a legacy one.
pub has_legacy_unacked-add_pending :
    (document_id : Text) (c : ℕ) (rest id : Text) (op : List ℕ) (now saved_at : ℕ) (db : Database)
    → b'9' < c
    → has_legacy_unacked document_id
        (add_pending (document_id ++ b':' ∷ c ∷ rest) id op now saved_at db).0
      ≡ has_legacy_unacked document_id db
unfolding add_pending has_legacy_unacked
has_legacy_unacked-add_pending document_id c rest id op now saved_at db h =
    let storage_id = document_id ++ b':' ∷ c ∷ rest in
    let row = new_row storage_id id op now saved_at db.last_issued in
    let out : in_legacy_range document_id row.id ≡ false =
      subst⁻¹ (λ k. in_legacy_range document_id k ≡ false)
        (append_assoc document_id (b':' ∷ c ∷ rest) (b':' ∷ id))
        (in_legacy_range-letter document_id c (rest ++ b':' ∷ id) h) in
    elim (Option-cases (note_counter storage_id (last_segment id) db.meta)) [
      | inl stop ↦ rw (stop, add_pending) refl
      | inr (meta, go) ↦
          rw (go, add_pending)
            (rw
              (
                count_legacy-put_new pending document_id row db.outbox out,
                count_legacy-put_new sent document_id row db.outbox out,
              )
              refl)
    ]
