-- ===== src/Documents/Concurrency.antt =====
-- src/server/services/documents.ts, `saveDocumentContent`: saves that expect a content version.
use concord_dev.Documents.Versions.{
  AtLeast, AtLeast, IsKeyed, update_where-AtLeast, saved-AtLeast, without-AtLeast, AtLeast-none,
}
use concord_dev.Base.{
  ℕ, ◌+◌, ◌≡◌, inl, inr, refl, sym, ap, ◌∙◌, Bool, false, ◌||◌, Option, none, some, List, [], ◌∷◌,
  arith, Option-cases,
}
use mathlib.Core.Path.{subst⁻¹}
use concord_dev.Access.{returns, throws, Actor}
use concord_dev.Documents.Tables.{
  DatabaseTables, DocumentRow, uuid_eq, insert_document, update_content_conditional,
  rename_conditional, delete_by_id,
}
use concord_dev.Base.Text.{Text}
use concord_dev.Control.Value.{Json}
use concord_dev.Documents.{apply_save, apply_rename, stale}

-- What other requests do to the documents. A create has the id that the database chose.
pub data Request : Type 0 where
  creates : Actor → Text → Option Text → Text → ℕ → Request
  renames : Actor → Text → Text → ℕ → ℕ → Request
  saves : Text → ℕ → Json → ℕ → Request
  deletes : Text → Request

unfoldable pub step : DatabaseTables → Request → DatabaseTables
step db (creates actor title initial_content id now) =
    insert_document title actor.user_id actor.organization initial_content id now db
step db (renames actor id title expected now) = (apply_rename actor id title expected now db).1
step db (saves id expected content now) = (apply_save id expected content now db).1
step db (deletes id) = delete_by_id id db

unfoldable pub run : DatabaseTables → List Request → DatabaseTables
run db [] = db
run db (r ∷ rs) = run (step db r) rs

abbrev pub creates_id : Text → Request → Bool
creates_id id (creates actor title initial_content new now) = uuid_eq new id
creates_id id _ = false

unfoldable pub created_in : Text → List Request → Bool
created_in id [] = false
created_in id (r ∷ rs) = creates_id id r || created_in id rs

apply_save-none :
    (id : Text) (v : ℕ) (content : Json) (now : ℕ) (db : DatabaseTables)
    → (update_content_conditional id v content now db.documents).0 ≡ none
    → apply_save id v content now db ≡ (throws (stale id db), db)
unfolding apply_save
apply_save-none id v content now db e = rw (e, apply_save) refl

apply_save-some :
    (id : Text) (v : ℕ) (content : Json) (now : ℕ) (db : DatabaseTables) (row : DocumentRow)
    → (update_content_conditional id v content now db.documents).0 ≡ some row
    → (apply_save id v content now db).1.documents
      ≡ (update_content_conditional id v content now db.documents).1
unfolding apply_save
apply_save-some id v content now db row e = rw (e, apply_save) refl

apply_rename-none :
    (actor : Actor) (id title : Text) (v now : ℕ) (db : DatabaseTables)
    → (rename_conditional id v title now db.documents).0 ≡ none
    → (apply_rename actor id title v now db).1.documents ≡ db.documents
unfolding apply_rename
apply_rename-none actor id title v now db e = rw (e, apply_rename) refl

apply_rename-some :
    (actor : Actor) (id title : Text) (v now : ℕ) (db : DatabaseTables) (row : DocumentRow)
    → (rename_conditional id v title now db.documents).0 ≡ some row
    → (apply_rename actor id title v now db).1.documents
      ≡ (rename_conditional id v title now db.documents).1
unfolding apply_rename
apply_rename-some actor id title v now db row e = rw (e, apply_rename) refl

step-AtLeast :
    (id : Text) (v : ℕ) (db : DatabaseTables) (r : Request)
    → creates_id id r ≡ false
    → AtLeast id v db.documents
    → AtLeast id v (step db r).documents
unfolding step insert_document delete_by_id rename_conditional update_content_conditional
step-AtLeast id v db (creates actor title initial_content new now) fresh h =
    (λ f. absurd (ground (arith, fresh, f)), h)
step-AtLeast id v db (renames actor j title expected now) fresh h =
    elim (Option-cases (rename_conditional j expected title now db.documents).0) [
      | inl e ↦ subst⁻¹ (AtLeast id v) (apply_rename-none actor j title expected now db e) h
      | inr (row, e) ↦
          subst⁻¹ (AtLeast id v) (apply_rename-some actor j title expected now db row e)
            (update_where-AtLeast _ _ (λ r. refl) (λ r. omega arith) id v db.documents h)
    ]
step-AtLeast id v db (saves j expected content now) fresh h =
    elim (Option-cases (update_content_conditional j expected content now db.documents).0) [
      | inl e ↦
          subst⁻¹ (AtLeast id v)
            (ap (λ p. p.1.documents) (apply_save-none j expected content now db e)) h
      | inr (row, e) ↦
          subst⁻¹ (AtLeast id v) (apply_save-some j expected content now db row e)
            (update_where-AtLeast _ _ (λ r. refl) (λ r. omega arith) id v db.documents h)
    ]
step-AtLeast id v db (deletes j) fresh h = without-AtLeast j id v db.documents h

run-AtLeast :
    (id : Text) (v : ℕ) (db : DatabaseTables) (rs : List Request)
    → created_in id rs ≡ false
    → AtLeast id v db.documents
    → AtLeast id v (run db rs).documents
unfolding run created_in
run-AtLeast id v db [] fresh h = h
run-AtLeast id v db (r ∷ rs) fresh h =
    run-AtLeast id v (step db r) rs (ground (arith, fresh))
      (step-AtLeast id v db r (ground (arith, fresh)) h)

-- Once a save was applied, no later save that expects the same content version is, whatever other
-- requests come in between, unless one of them creates a document with the same id: it changes
-- nothing and its author is told of the conflict, or that the document is gone.
pub apply_save-once :
    (id : Text) (v : ℕ) (content other_content : Json) (now later now_v : ℕ) (db : DatabaseTables)
    (rs : List Request)
    → IsKeyed db.documents
    → (apply_save id v content now db).0 ≡ returns now_v
    → created_in id rs ≡ false
    → apply_save id v other_content later (run (apply_save id v content now db).1 rs) ≡ (
      throws (stale id (run (apply_save id v content now db).1 rs)),
      run (apply_save id v content now db).1 rs,
    )
apply_save-once id v content other_content now later now_v db rs keyed done fresh =
    let after = (apply_save id v content now db).1 in
    elim (Option-cases (update_content_conditional id v content now db.documents).0) [
      | inl e ↦
          absurd
            (ground (arith, sym (ap (λ p. p.0) (apply_save-none id v content now db e)) ∙ done))
      | inr (row, e) ↦
          let above : AtLeast id (v + 1) after.documents =
            subst⁻¹ (AtLeast id (v + 1)) (apply_save-some id v content now db row e)
              (saved-AtLeast id v content now db.documents row keyed e) in
          apply_save-none id v other_content later (run after rs) (
            AtLeast-none id v other_content later (run after rs).documents
              (run-AtLeast id (v + 1) after rs fresh above))
    ]
