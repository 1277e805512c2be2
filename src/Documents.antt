-- ===== src/Documents.antt =====
-- src/server/services/documents.ts over src/server/repositories/documents.ts, permissions.ts and
-- audit.ts: the services as functions on the tables of the database. A statement of SQL is one
-- function; a transaction that throws leaves the tables as they were. Columns of type uuid compare
-- without regard to case.
pub mod Inputs
pub mod Tables
pub mod Versions
pub mod Concurrency
pub mod Masking
pub mod Listing
pub mod Roles
mod Tests
use concord_dev.Base.{
  ℕ, zero, suc, ◌+◌, ◌*◌, ◌-◌, ◌^◌, ◌≤◌, ◌<◌, ◌≡◌, ◌≢◌, ◌↔◌, ◌⊎◌, inl, inr, refl, sym, ap, ◌∙◌,
  Bool, true, false, not, ◌&&◌, ◌||◌, Option, none, some, List, [], ◌∷◌, ◌++◌, arith, ltb, leb,
  length, if◌then◌else◌, Bool-cases, Option-cases, ◌==◌,
}
use concord_dev.Access.{
  Actor, EffectiveRole, Capability, owner, read, edit_content, rename, delete, Outcome, returns,
  throws, ServerError, not_found, conflict, validation, resolve_effective_role, role_has_capability,
}
use concord_dev.Documents.Inputs.{
  Given, normalize_title, validate_initial_content, parse_document_id, parse_version,
}
use concord_dev.Documents.Tables.{
  DatabaseTables, DocumentRow, find_by_id, find_grant, role_of, insert_document, rename_conditional,
  update_content_conditional, delete_by_id, audited, AuditAction, document_create, document_rename,
  document_delete,
}
use concord_dev.Base.Text.{Text, text_eq}
use concord_dev.Control.Value.{Json, obj, num, uint, entries, lookup, is_in}

abbrev pub max_content_json_bytes : ℕ
max_content_json_bytes = 2 * 1024 * 1024

abbrev pub version_one : Option Json → Bool
version_one (some (num (uint n))) = n == 1
version_one _ = false

-- `requireAccess`
unfoldable pub require_access :
    Actor → Text → Capability → DatabaseTables → Outcome (DocumentRow × EffectiveRole)
require_access actor id capability db = elim (find_by_id id db.documents) [
  | none ↦ throws (not_found "Document not found")
  | some document ↦
      let role =
        resolve_effective_role actor document.owner_user_id document.organization_id
          (role_of (find_grant id actor.user_id db.grants)) in
      elim role [
        | none ↦ throws (not_found "Document not found")
        | some r ↦
            if role_has_capability (some r) capability
            then returns (document, r)
            else throws (not_found "Document not found")
      ]
]

-- `fresh_id` and `now` are what the database chooses at the insert.
unfoldable pub create_document :
    Actor → Given → Given → Text → ℕ → DatabaseTables → Outcome Text × DatabaseTables
create_document actor title initial_content fresh_id now db = elim (normalize_title title) [
  | throws e ↦ (throws e, db)
  | returns t ↦ elim (validate_initial_content initial_content) [
    | throws e ↦ (throws e, db)
    | returns c ↦ (
      returns fresh_id,
      audited actor.user_id document_create fresh_id actor.organization
          (insert_document t actor.user_id actor.organization c fresh_id now db),
    )
  ]
]

unfoldable pub get_document : Actor → Given → DatabaseTables → Outcome (DocumentRow × EffectiveRole)
get_document actor document_id db = elim (parse_document_id document_id) [
  | throws e ↦ throws e
  | returns id ↦ require_access actor id read db
]

-- After a conditional update that found no row.
abbrev pub stale : Text → DatabaseTables → ServerError
stale id db = elim (find_by_id id db.documents) [
  | none ↦ not_found "Document not found"
  | some row ↦ conflict "Document was modified concurrently"
]

-- The transaction of `renameDocument`.
unfoldable pub apply_rename :
    Actor → Text → Text → ℕ → ℕ → DatabaseTables → Outcome ℕ × DatabaseTables
apply_rename actor id title expected now db =
    let (found, rows) = rename_conditional id expected title now db.documents in
    elim found [
      | none ↦ (throws (stale id db), db)
      | some updated ↦ (
        returns updated.metadata_version,
        audited actor.user_id document_rename id updated.organization_id
            (record db { documents = rows }),
      )
    ]

-- The access is checked in `db`; the transaction runs in `later`, as other requests may have come
-- in between.
unfoldable pub rename_document :
    Actor → Given → Given → Given → ℕ → DatabaseTables → DatabaseTables → Outcome ℕ × DatabaseTables
rename_document actor document_id title expected now db later =
    elim (parse_document_id document_id) [
      | throws e ↦ (throws e, later)
      | returns id ↦ elim (require_access actor id rename db) [
        | throws e ↦ (throws e, later)
        | returns access ↦ elim (normalize_title title) [
          | throws e ↦ (throws e, later)
          | returns t ↦ elim (parse_version "Invalid expectedMetadataVersion" expected) [
            | throws e ↦ (throws e, later)
            | returns v ↦ apply_rename actor id t v now later
          ]
        ]
      ]
    ]

unfoldable pub delete_document :
    Actor → Given → DatabaseTables → DatabaseTables → Outcome (Unit {0}) × DatabaseTables
delete_document actor document_id db later = elim (parse_document_id document_id) [
  | throws e ↦ (throws e, later)
  | returns id ↦ elim (require_access actor id delete db) [
    | throws e ↦ (throws e, later)
    | returns access ↦ (
      returns tt,
      delete_by_id id
          (audited actor.user_id document_delete id (DocumentRow.organization_id access.0) later),
    )
  ]
]

-- An object with `v` equal to 1 and a `doc`.
abbrev pub is_envelope : Json → Bool
is_envelope (obj fs) = version_one (lookup "v" (entries fs)) && is_in "doc" (entries fs)
is_envelope _ = false

-- `content` is none where it is undefined. `serialized` is the length of `JSON.stringify`, or none
-- where it throws.
unfoldable pub validate_content : (Json → Option ℕ) → Option Json → Outcome Json
validate_content serialized none = throws (validation "Content must be a version 1 object envelope")
validate_content serialized (some content) =
    if is_envelope content
    then elim (serialized content) [
      | none ↦ throws (validation "Content is not JSON-serializable")
      | some size ↦
          if ltb max_content_json_bytes size
          then throws (validation "Content is too large")
          else returns content
    ]
    else throws (validation "Content must be a version 1 object envelope")

-- `updateContentConditional` and the answer of `saveDocumentContent`.
unfoldable pub apply_save : Text → ℕ → Json → ℕ → DatabaseTables → Outcome ℕ × DatabaseTables
apply_save id expected content now db =
    let (found, rows) = update_content_conditional id expected content now db.documents in
    elim found [
      | none ↦ (throws (stale id db), db)
      | some updated ↦ (returns updated.content_version, record db { documents = rows })
    ]

unfoldable pub save_document_content :
    (Json → Option ℕ)
    → Actor
    → Given
    → Option Json
    → Given
    → ℕ
    → DatabaseTables
    → DatabaseTables
    → Outcome ℕ × DatabaseTables
save_document_content serialized actor document_id content expected now db later =
    elim (parse_document_id document_id) [
      | throws e ↦ (throws e, later)
      | returns id ↦ elim (require_access actor id edit_content db) [
        | throws e ↦ (throws e, later)
        | returns access ↦ elim (parse_version "Invalid expectedContentVersion" expected) [
          | throws e ↦ (throws e, later)
          | returns v ↦ elim (validate_content serialized content) [
            | throws e ↦ (throws e, later)
            | returns c ↦ apply_save id v c now later
          ]
        ]
      ]
    ]
