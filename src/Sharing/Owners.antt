-- ===== src/Sharing/Owners.antt =====
-- src/server/services/permissions.ts, `requireOwnedDocument`: what others than the owner are told.
use concord_dev.Base.{◌≡◌, inl, inr, refl, Bool, true, false, none, some, Option-cases}
use concord_dev.Access.{
  role_has_capability, of_grant, Actor, DocumentRole, throws, not_found, manage_permissions,
  grants_editor, grants_commenter, grants_viewer,
}
use concord_dev.Documents.Inputs.{Given, text, is_uuid, parse_document_id}
use concord_dev.Documents.Tables.{DatabaseTables, find_by_id, find_grant}
use concord_dev.Sharing.{
  require_owned_document, grant_permission, revoke_permission, SignIn, ServerTables, list_grants,
}
use concord_dev.Base.Text.{Text, text_eq}

-- The actor owns the stored document with this id.
abbrev pub owns : Actor → Text → DatabaseTables → Bool
owns actor id db = elim (find_by_id id db.documents) [
  | none ↦ false
  | some document ↦ text_eq document.owner_user_id actor.user_id
]

no_manage :
    (role : DocumentRole) → role_has_capability (some (of_grant role)) manage_permissions ≡ false
no_manage grants_editor = refl
no_manage grants_commenter = refl
no_manage grants_viewer = refl

require_owned_document-denied :
    (actor : Actor) (id : Text) (db : DatabaseTables)
    → owns actor id db ≡ false
    → require_owned_document actor id db ≡ throws (not_found "Document not found")
unfolding require_owned_document
require_owned_document-denied actor id db h = elim (Option-cases (find_by_id id db.documents)) [
  | inl e ↦ rw (e, require_owned_document) refl
  | inr (row, e) ↦
      let other : text_eq row.owner_user_id actor.user_id ≡ false = rw (e, owns) at h in
      elim (Option-cases (find_grant id actor.user_id db.grants)) [
        | inl f ↦ rw (e, other, f, require_owned_document) refl
        | inr (g, f) ↦ rw (e, other, f, require_owned_document) (rw (no_manage g.role) refl)
      ]
]

-- A grant, a revocation or a listing of grants by anyone but the owner answers as for a missing
-- document and changes nothing, whatever role the actor was granted.
pub strangers-masked :
    (sign_in : SignIn) (actor : Actor) (id : Text) (target email role : Given) (fresh_id : Text)
    (s : ServerTables)
    → owns actor id s.tables ≡ false
    → is_uuid id ≡ true
    → grant_permission sign_in actor (text id) target email role fresh_id s
        ≡ (throws (not_found "Document not found"), s)
      × revoke_permission actor (text id) target s.tables
        ≡ (throws (not_found "Document not found"), s.tables)
      × list_grants actor (text id) s.tables ≡ throws (not_found "Document not found")
unfolding grant_permission revoke_permission list_grants parse_document_id
strangers-masked sign_in actor id target email role fresh_id s h u =
    let denied = require_owned_document-denied actor id s.tables h in
    (
      rw (u, denied, grant_permission) refl,
      rw (u, denied, revoke_permission) refl,
      rw (u, denied, list_grants) refl,
    )
