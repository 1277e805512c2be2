-- ===== src/Sharing/Grants.antt =====
-- src/server/repositories/permissions.ts: the table of grants after a grant and a revocation.
use concord_dev.Base.{
  ◌≡◌, inl, inr, refl, Bool, true, ◌&&◌, none, some, List, [], ◌∷◌, arith, if◌then◌else◌,
  Option-cases,
}
use concord_dev.Access.{Actor, DocumentRole}
use concord_dev.Documents.Tables.{
  DatabaseTables, DocumentRow, GrantRow, find_grant, role_of, uuid_eq,
}
use concord_dev.Documents.Versions.{uuid_eq_iff}
use concord_dev.Sharing.{upsert_grant, delete_grant, apply_grant, apply_revoke}
use concord_dev.Base.Text.{Text}

-- The ids of a document and of a user are those of the grant.
abbrev pub same_pair : GrantRow → Text → Text → Bool
same_pair g document_id user_id = uuid_eq g.document_id document_id && uuid_eq g.user_id user_id

role-upsert_grant :
    (grant : GrantRow) (d u : Text) (gs : List GrantRow)
    → role_of (find_grant d u (upsert_grant grant gs))
      ≡ (if same_pair grant d u then some grant.role else role_of (find_grant d u gs))
unfolding find_grant upsert_grant
role-upsert_grant grant d u [] = ground arith
role-upsert_grant grant d u (g ∷ gs) = ground (
  arith,
  role-upsert_grant grant d u gs,
  uuid_eq_iff g.document_id grant.document_id,
  uuid_eq_iff g.user_id grant.user_id,
  uuid_eq_iff g.document_id d,
  uuid_eq_iff g.user_id u,
  uuid_eq_iff grant.document_id d,
  uuid_eq_iff grant.user_id u,
)

find-delete_grant :
    (d u e v : Text) (gs : List GrantRow)
    → find_grant e v (delete_grant d u gs)
      ≡ (if uuid_eq d e && uuid_eq u v then none else find_grant e v gs)
unfolding find_grant delete_grant
find-delete_grant d u e v [] = ground arith
find-delete_grant d u e v (g ∷ gs) = ground (
  arith,
  find-delete_grant d u e v gs,
  uuid_eq_iff g.document_id d,
  uuid_eq_iff g.user_id u,
  uuid_eq_iff g.document_id e,
  uuid_eq_iff g.user_id v,
  uuid_eq_iff d e,
  uuid_eq_iff u v,
)

find_grant_same :
    (d e u v : Text) (gs : List GrantRow)
    → uuid_eq d e && uuid_eq u v ≡ true
    → find_grant d u gs ≡ find_grant e v gs
unfolding find_grant
find_grant_same d e u v [] h = refl
find_grant_same d e u v (g ∷ gs) h = ground (
  arith,
  find_grant_same d e u v gs,
  h,
  uuid_eq_iff g.document_id d,
  uuid_eq_iff g.user_id u,
  uuid_eq_iff g.document_id e,
  uuid_eq_iff g.user_id v,
  uuid_eq_iff d e,
  uuid_eq_iff u v,
)

-- After a grant the user has the granted role on the document, and every other pair of a document
-- and a user has the role that it had.
pub role-apply_grant :
    (actor : Actor) (document : DocumentRow) (target : Text) (role : DocumentRole)
    (db : DatabaseTables) (d u : Text)
    → role_of (find_grant d u (apply_grant actor document target role db).grants) ≡ (
        if uuid_eq document.id d && uuid_eq target u
        then some role
        else role_of (find_grant d u db.grants))
unfolding apply_grant
role-apply_grant actor document target role db d u = role-upsert_grant _ d u db.grants

-- After a revocation the user has no grant on the document, and every other pair has the grant that
-- it had.
pub find-apply_revoke :
    (actor : Actor) (document : DocumentRow) (target : Text) (db : DatabaseTables) (d u : Text)
    → find_grant d u (apply_revoke actor document target db).1.grants
      ≡ (if uuid_eq document.id d && uuid_eq target u then none else find_grant d u db.grants)
unfolding apply_revoke
find-apply_revoke actor document target db d u =
    elim (Option-cases (find_grant document.id target db.grants)) [
      | inl e ↦
          rw (e, apply_revoke) (ground (arith, e, find_grant_same document.id d target u db.grants))
      | inr (g, e) ↦ rw (e, apply_revoke) (find-delete_grant document.id target d u db.grants)
    ]
