-- ===== src/Documents/Listing.antt =====
-- src/server/repositories/documents.ts, `listAccessible`, and src/server/services/documents.ts,
-- `listDocuments`.
use concord_dev.Base.{
  ℕ, ◌+◌, Bool, false, not, ◌&&◌, ◌||◌, Option, none, some, List, [], ◌∷◌, ltb, length,
  if◌then◌else◌, ◌==◌,
}
use concord_dev.Access.{Actor, EffectiveRole, DocumentRole, owner, editor, of_grant}
use concord_dev.Documents.Tables.{
  DatabaseTables, DocumentRow, GrantRow, find_grant, role_of, uuid_eq,
}
use concord_dev.Base.Text.{Text, text_le}
use concord_dev.Base.{take, drop}

pub data Scope : Type 0 where
  workspace shared : Scope

pub record Listed : Type 0 where
  pub document : DocumentRow
  pub role : EffectiveRole

abbrev pub uuid_eq_option : Option Text → Text → Bool
uuid_eq_option none id = false
uuid_eq_option (some a) id = uuid_eq a id

-- The filter of the scope, on a document and the joined grant of the user.
abbrev pub in_scope : Text → Option Text → Scope → DocumentRow → Option DocumentRole → Bool
in_scope user_id organization_id shared d none = false
in_scope user_id organization_id shared d (some role) = not (uuid_eq d.owner_user_id user_id)
in_scope user_id none workspace d role = uuid_eq d.owner_user_id user_id
in_scope user_id (some organization) workspace d role =
    uuid_eq_option d.organization_id organization

-- CASE WHEN owner = user THEN 'OWNER' ELSE COALESCE(role, 'EDITOR') END
abbrev pub listed_role : Text → DocumentRow → Option DocumentRole → EffectiveRole
listed_role user_id d role =
    if uuid_eq d.owner_user_id user_id
    then owner
    else elim role [ none ↦ editor | some r ↦ of_grant r ]

-- ORDER BY updated_at DESC, id DESC
abbrev pub comes_first : Listed → Listed → Bool
comes_first a b =
    ltb b.document.updated_at a.document.updated_at
    || a.document.updated_at == b.document.updated_at && text_le b.document.id a.document.id

unfoldable pub insert_listed : Listed → List Listed → List Listed
insert_listed l [] = l ∷ []
insert_listed l (x ∷ xs) = if comes_first l x then l ∷ x ∷ xs else x ∷ insert_listed l xs

unfoldable pub sort_listed : List Listed → List Listed
sort_listed [] = []
sort_listed (l ∷ ls) = insert_listed l (sort_listed ls)

-- `matches` is the test of the title by ILIKE, true of every title where there is no search.
unfoldable pub select_rows :
    Text → Option Text → Scope → (Text → Bool) → List GrantRow → List DocumentRow → List Listed
select_rows user_id organization_id scope matches grants [] = []
select_rows user_id organization_id scope matches grants (d ∷ ds) =
    let role = role_of (find_grant d.id user_id grants) in
    if in_scope user_id organization_id scope d role && matches d.title
    then record { document = d; role = listed_role user_id d role }
      ∷ select_rows user_id organization_id scope matches grants ds
    else select_rows user_id organization_id scope matches grants ds

unfoldable pub list_accessible :
    Text → Option Text → Scope → ℕ → ℕ → (Text → Bool) → DatabaseTables → List Listed
list_accessible user_id organization_id scope limit offset matches db = take limit (
    drop offset
      (sort_listed (select_rows user_id organization_id scope matches db.grants db.documents)))

-- From the validated page size and offset on: the documents of the page, and `hasMore`.
unfoldable pub list_documents :
    Actor → Scope → ℕ → ℕ → (Text → Bool) → DatabaseTables → List Listed × Bool
list_documents actor scope page_size offset matches db =
    let rows =
      list_accessible actor.user_id actor.organization scope (page_size + 1) offset matches db in
    (take page_size rows, ltb page_size (length rows))
