-- ===== src/Documents/Tables.antt =====
-- src/server/repositories: the tables of documents, direct grants and audit events, with one
-- function for each statement that the services run.
use concord_dev.Base.{
  ℕ, ◌+◌, Bool, true, false, ◌&&◌, Option, none, some, List, [], ◌∷◌, if◌then◌else◌, ◌==◌,
}
use concord_dev.Access.{DocumentRole}
use concord_dev.Base.Text.{Text, lower}
use concord_dev.Control.Value.{Json}

pub record DocumentRow : Type 0 where
  pub id : Text
  pub title : Text
  pub owner_user_id : Text
  pub organization_id : Option Text
  pub initial_content : Option Text
  pub content : Option Json
  pub content_version : ℕ
  pub metadata_version : ℕ
  pub created_at : ℕ
  pub updated_at : ℕ

pub record GrantRow : Type 0 where
  pub document_id : Text
  pub user_id : Text
  pub role : DocumentRole
  pub granted_by_user_id : Text

pub data AuditAction : Type 0 where
  document_create document_rename document_delete : AuditAction
  permission_granted permission_updated permission_revoked : AuditAction
  document_comment_created document_comment_replied document_comment_resolved : AuditAction

pub record AuditEvent : Type 0 where
  pub actor_user_id : Text
  pub action : AuditAction
  pub resource_id : Text
  pub organization_id : Option Text

-- The audit events stand with the newest first.
pub record DatabaseTables : Type 0 where
  pub documents : List DocumentRow
  pub grants : List GrantRow
  pub audit : List AuditEvent

-- Equality of uuid values.
unfoldable pub uuid_eq : Text → Text → Bool
uuid_eq [] [] = true
uuid_eq (c ∷ s) (d ∷ t) = lower c == lower d && uuid_eq s t
uuid_eq _ _ = false

unfoldable pub find_by_id : Text → List DocumentRow → Option DocumentRow
find_by_id id [] = none
find_by_id id (r ∷ rs) = if uuid_eq r.id id then some r else find_by_id id rs

unfoldable pub find_grant : Text → Text → List GrantRow → Option GrantRow
find_grant document_id user_id [] = none
find_grant document_id user_id (g ∷ gs) =
    if uuid_eq g.document_id document_id && uuid_eq g.user_id user_id
    then some g
    else find_grant document_id user_id gs

-- `grant?.role ?? null`
abbrev pub role_of : Option GrantRow → Option DocumentRole
role_of none = none
role_of (some g) = some g.role

unfoldable pub insert_document :
    Text → Text → Option Text → Option Text → Text → ℕ → DatabaseTables → DatabaseTables
insert_document title owner_user_id organization_id initial_content id now db =
    let row : DocumentRow = record {
      id = id;
      title = title;
      owner_user_id = owner_user_id;
      organization_id = organization_id;
      initial_content = initial_content;
      content = none;
      content_version = 1;
      metadata_version = 1;
      created_at = now;
      updated_at = now;
    } in
    record db { documents = row ∷ db.documents }

-- An `update … where id = … and version = … returning …` of one row: the row as it is after, and
-- the table.
unfoldable pub update_where :
    (DocumentRow → Bool)
    → (DocumentRow → DocumentRow)
    → List DocumentRow
    → Option DocumentRow × List DocumentRow
update_where matches change [] = (none, [])
update_where matches change (r ∷ rs) =
    let rest = update_where matches change rs in
    if matches r then (some (change r), change r ∷ rs) else (rest.0, r ∷ rest.1)

unfoldable pub update_content_conditional :
    Text → ℕ → Json → ℕ → List DocumentRow → Option DocumentRow × List DocumentRow
update_content_conditional id expected content now rows =
    update_where (λ r. uuid_eq r.id id && r.content_version == expected)
      (λ r. record r {
        content = some content;
        content_version = r.content_version + 1;
        updated_at = now;
      })
      rows

unfoldable pub rename_conditional :
    Text → ℕ → Text → ℕ → List DocumentRow → Option DocumentRow × List DocumentRow
rename_conditional id expected title now rows =
    update_where (λ r. uuid_eq r.id id && r.metadata_version == expected)
      (λ r. record r { title = title; metadata_version = r.metadata_version + 1; updated_at = now })
      rows

unfoldable pub without : Text → List DocumentRow → List DocumentRow
without id [] = []
without id (r ∷ rs) = if uuid_eq r.id id then without id rs else r ∷ without id rs

unfoldable pub without_grants : Text → List GrantRow → List GrantRow
without_grants document_id [] = []
without_grants document_id (g ∷ gs) =
    if uuid_eq g.document_id document_id
    then without_grants document_id gs
    else g ∷ without_grants document_id gs

-- The grants of a document go with it.
unfoldable pub delete_by_id : Text → DatabaseTables → DatabaseTables
delete_by_id id db = record db {
  documents = without id db.documents;
  grants = without_grants id db.grants;
}

abbrev pub audited : Text → AuditAction → Text → Option Text → DatabaseTables → DatabaseTables
audited actor_user_id action resource_id organization_id db = record db {
  audit =
      record {
        actor_user_id = actor_user_id;
        action = action;
        resource_id = resource_id;
        organization_id = organization_id;
      }
      ∷ db.audit;
}
