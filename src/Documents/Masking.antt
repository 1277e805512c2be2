-- ===== src/Documents/Masking.antt =====
-- src/server/services/documents.ts, `requireAccess`: what an actor without the capability is told.
use concord_dev.Base.{
  ℕ, ◌≡◌, inl, inr, refl, sym, ◌∙◌, true, false, Option, none, some, List, [], ◌∷◌, arith,
  Option-cases, ◌≢◌, Bool-cases, ap,
}
use concord_dev.Access.{
  owner, editor, commenter, viewer, not_found, throws, Actor, Capability, read, edit_content,
  rename, delete, resolve_effective_role, role_has_capability, EffectiveRole, not_found,
}
use concord_dev.Documents.Tables.{
  DatabaseTables, DocumentRow, find_by_id, find_grant, role_of, without, delete_by_id,
}
use concord_dev.Documents.Inputs.{Given, text, is_uuid, parse_document_id}
use concord_dev.Base.Text.{Text}
use concord_dev.Control.Value.{Json}
use concord_dev.Documents.{
  require_access, rename_document, delete_document, save_document_content, get_document,
}

find_by_id-without : (id : Text) (rows : List DocumentRow) → find_by_id id (without id rows) ≡ none
unfolding find_by_id without
find_by_id-without id [] = refl
find_by_id-without id (r ∷ rs) = ground (arith, find_by_id-without id rs)

-- The actor's role on the stored document with this id, none where there is none.
abbrev pub role_on : Actor → Text → DatabaseTables → Option EffectiveRole
role_on actor id db = elim (find_by_id id db.documents) [
  | none ↦ none
  | some document ↦
      resolve_effective_role actor document.owner_user_id document.organization_id
        (role_of (find_grant id actor.user_id db.grants))
]

require_access-missing :
    (actor : Actor) (id : Text) (capability : Capability) (db : DatabaseTables)
    → find_by_id id db.documents ≡ none
    → require_access actor id capability db ≡ throws (not_found "Document not found")
unfolding require_access
require_access-missing actor id capability db e = rw (e, require_access) refl

require_access-denied :
    (actor : Actor) (id : Text) (capability : Capability) (db : DatabaseTables)
    → role_has_capability (role_on actor id db) capability ≡ false
    → require_access actor id capability db ≡ throws (not_found "Document not found")
unfolding require_access
require_access-denied actor id capability db h = elim (Option-cases (find_by_id id db.documents)) [
  | inl e ↦ require_access-missing actor id capability db e
  | inr (row, e) ↦
      elim (Option-cases (
        resolve_effective_role actor row.owner_user_id row.organization_id
          (role_of (find_grant id actor.user_id db.grants)))) [
            | inl f ↦ rw (e, f, require_access) refl
            | inr (role, f) ↦
                let g : role_has_capability (some role) capability ≡ false =
                  rw (e, f, role_on, role_has_capability) at h in
                rw (e, f, g, require_access) refl
          ]
]

require_access-masked :
    (actor : Actor) (id : Text) (capability : Capability) (db : DatabaseTables)
    → role_has_capability (role_on actor id db) capability ≡ false
    → require_access actor id capability db
      ≡ require_access actor id capability (delete_by_id id db)
unfolding delete_by_id
require_access-masked actor id capability db h =
    require_access-denied actor id capability db h
    ∙ sym (
        require_access-missing actor id capability (delete_by_id id db)
          (find_by_id-without id db.documents))

no_read :
    (role : Option EffectiveRole) (capability : Capability)
    → role_has_capability role read ≡ false
    → role_has_capability role capability ≡ false
no_read none capability h = refl
no_read (some owner) capability h = absurd (ground (arith, h))
no_read (some editor) capability h = absurd (ground (arith, h))
no_read (some commenter) capability h = absurd (ground (arith, h))
no_read (some viewer) capability h = absurd (ground (arith, h))

renamed-masked :
    (actor : Actor) (id : Text) (title expected : Given) (now : ℕ) (db later : DatabaseTables)
    → role_has_capability (role_on actor id db) rename ≡ false
    → is_uuid id ≡ true
    → rename_document actor (text id) title expected now db later
      ≡ (throws (not_found "Document not found"), later)
unfolding rename_document parse_document_id
renamed-masked actor id title expected now db later h u =
    rw (u, require_access-denied actor id rename db h, rename_document) refl

saved-masked :
    (serialized : Json → Option ℕ) (actor : Actor) (id : Text) (content : Option Json)
    (expected : Given) (now : ℕ) (db later : DatabaseTables)
    → role_has_capability (role_on actor id db) edit_content ≡ false
    → is_uuid id ≡ true
    → save_document_content serialized actor (text id) content expected now db later
      ≡ (throws (not_found "Document not found"), later)
unfolding save_document_content parse_document_id
saved-masked serialized actor id content expected now db later h u =
    rw (u, require_access-denied actor id edit_content db h, save_document_content) refl

deleted-masked :
    (actor : Actor) (id : Text) (db later : DatabaseTables)
    → role_has_capability (role_on actor id db) delete ≡ false
    → is_uuid id ≡ true
    → delete_document actor (text id) db later ≡ (throws (not_found "Document not found"), later)
unfolding delete_document parse_document_id
deleted-masked actor id db later h u =
    rw (u, require_access-denied actor id delete db h, delete_document) refl

read-masked :
    (actor : Actor) (id : Text) (db : DatabaseTables)
    → role_has_capability (role_on actor id db) read ≡ false
    → get_document actor (text id) db ≡ get_document actor (text id) (delete_by_id id db)
unfolding get_document parse_document_id
read-masked actor id db h = elim (Bool-cases (is_uuid id)) [
  | inl u ↦ rw (u, get_document) (require_access-masked actor id read db h)
  | inr u ↦ rw (u, get_document) refl
]

deleted_role :
    (actor : Actor) (id : Text) (db : DatabaseTables) → role_on actor id (delete_by_id id db) ≡ none
unfolding delete_by_id
deleted_role actor id db = rw (find_by_id-without id db.documents, role_on) refl

-- To an actor who may not read a document, each operation on it answers as if the document was
-- deleted, and it changes nothing.
pub outsider-masked :
    (serialized : Json → Option ℕ) (actor : Actor) (id : Text) (title expected : Given)
    (content : Option Json) (now : ℕ) (db later : DatabaseTables)
    → role_has_capability (role_on actor id db) read ≡ false
    → is_uuid id ≡ true
    → get_document actor (text id) db ≡ get_document actor (text id) (delete_by_id id db)
      × (rename_document actor (text id) title expected now db later).1 ≡ later
      × rename_document actor (text id) title expected now db later
        ≡ rename_document actor (text id) title expected now (delete_by_id id db) later
      × (delete_document actor (text id) db later).1 ≡ later
      × delete_document actor (text id) db later
        ≡ delete_document actor (text id) (delete_by_id id db) later
      × (save_document_content serialized actor (text id) content expected now db later).1 ≡ later
      × save_document_content serialized actor (text id) content expected now db later
        ≡ save_document_content serialized actor
            (text id)
            content
            expected
            now
            (delete_by_id id db)
            later
outsider-masked serialized actor id title expected content now db later h u =
    let no = λ (c : Capability). no_read (role_on actor id db) c h in
    let gone = λ (c : Capability). ap (λ r. role_has_capability r c) (deleted_role actor id db) in
    let renamed = renamed-masked actor id title expected now db later (no rename) u in
    let removed = deleted-masked actor id db later (no delete) u in
    let saved =
      saved-masked serialized actor id content expected now db later (no edit_content) u in
    (
      read-masked actor id db h,
      ap (λ p. p.1) renamed,
      renamed
          ∙ sym (
              renamed-masked actor id title expected now (delete_by_id id db) later (gone rename)
                u),
      ap (λ p. p.1) removed,
      removed ∙ sym (deleted-masked actor id (delete_by_id id db) later (gone delete) u),
      ap (λ p. p.1) saved,
      saved
          ∙ sym (
              saved-masked serialized actor id content expected now (delete_by_id id db) later
                (gone edit_content) u),
    )

-- Whatever changes a document had the capability for it when the access was checked: a rename and a
-- save that of an editor, a deletion that of the owner.
pub changes-authorized :
    (serialized : Json → Option ℕ) (actor : Actor) (id : Text) (title expected : Given)
    (content : Option Json) (now : ℕ) (db later : DatabaseTables)
    → is_uuid id ≡ true
    → ((rename_document actor (text id) title expected now db later).1 ≢ later
        → role_has_capability (role_on actor id db) rename ≡ true)
      × ((save_document_content serialized actor (text id) content expected now db later).1 ≢ later
          → role_has_capability (role_on actor id db) edit_content ≡ true)
      × ((delete_document actor (text id) db later).1 ≢ later
          → role_has_capability (role_on actor id db) delete ≡ true)
changes-authorized serialized actor id title expected content now db later u = (
  λ changed. elim (Bool-cases (role_has_capability (role_on actor id db) rename)) [
    | inl e ↦ e
    | inr e ↦
        absurd (changed (ap (λ p. p.1) (renamed-masked actor id title expected now db later e u)))
  ],
  λ changed. elim (Bool-cases (role_has_capability (role_on actor id db) edit_content)) [
    | inl e ↦ e
    | inr e ↦ absurd (
        changed
          (ap (λ p. p.1) (saved-masked serialized actor id content expected now db later e u)))
  ],
  λ changed. elim (Bool-cases (role_has_capability (role_on actor id db) delete)) [
    | inl e ↦ e
    | inr e ↦ absurd (changed (ap (λ p. p.1) (deleted-masked actor id db later e u)))
  ],
)
