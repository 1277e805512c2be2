-- ===== src/Documents/Tests.antt =====
-- The document services on a concrete database, and their theorems there.
use concord_dev.Base.{ℕ, zero, suc, ◌≡◌, ◌≢◌, refl, true, none, some, List, [], ◌∷◌, false}
use concord_dev.Access.{
  edit_content, rename, delete, Actor, throws, resolve_effective_role, role_has_capability, owner,
}
use concord_dev.Base.Text.{Text, text_eq}
use concord_dev.Control.Value.{Json, obj, field, end, num, uint}
use concord_dev.Documents.Inputs.{text, int, is_uuid, skip_hex}
use concord_dev.Documents.Tables.{
  DatabaseTables, DocumentRow, find_by_id, update_where, update_content_conditional, uuid_eq,
  delete_by_id, find_grant,
}
use concord_dev.Documents.{
  get_document, rename_document, delete_document, save_document_content, apply_save, stale,
}
use concord_dev.Documents.Concurrency.{Request, run, renames, created_in, apply_save-once}
use concord_dev.Documents.Listing.{
  workspace, list_documents, list_accessible, sort_listed, insert_listed, select_rows,
}
use concord_dev.Documents.Roles.{AreResolved, list_documents-AreResolved}
use concord_dev.Documents.Masking.{role_on, outsider-masked, changes-authorized}

abbrev digits : ℕ → Text → Text
digits zero s = s
digits (suc n) s = b'a' ∷ digits n s

abbrev uuid : Text
uuid = digits 8 (b'-' ∷ digits 4 (b'-' ∷ digits 4 (b'-' ∷ digits 4 (b'-' ∷ digits 12 []))))

abbrev alice : Actor
alice = record { user_id = b'1' ∷ []; organization = none }

abbrev mallory : Actor
mallory = record { user_id = b'2' ∷ []; organization = some (b'9' ∷ []) }

abbrev row : DocumentRow
row = record {
  id = uuid;
  title = b'T' ∷ [];
  owner_user_id = alice.user_id;
  organization_id = none;
  initial_content = none;
  content = none;
  content_version = 3;
  metadata_version = 3;
  created_at = 0;
  updated_at = 0;
}

abbrev db : DatabaseTables
db = record { documents = row ∷ []; grants = []; audit = [] }

abbrev content : Json
content = obj (field "v" (num (uint 1)) (field "doc" Json.null end))

abbrev renamed_meanwhile : List Request
renamed_meanwhile = renames alice uuid (b'N' ∷ []) 3 5 ∷ []

apply_save-once_example :
    apply_save uuid 3 content 7 (run (apply_save uuid 3 content 4 db).1 renamed_meanwhile) ≡ (
      throws (stale uuid (run (apply_save uuid 3 content 4 db).1 renamed_meanwhile)),
      run (apply_save uuid 3 content 4 db).1 renamed_meanwhile,
    )
unfolding find_by_id apply_save update_content_conditional update_where uuid_eq created_in
apply_save-once_example =
    apply_save-once uuid 3 content content 4 7 4 db renamed_meanwhile (refl, tt) refl refl

outsider-masked_example :
    get_document mallory (text uuid) db ≡ get_document mallory (text uuid) (delete_by_id uuid db)
    × (rename_document mallory (text uuid) (text (b'X' ∷ [])) (int 3) 5 db db).1 ≡ db
    × rename_document mallory (text uuid) (text (b'X' ∷ [])) (int 3) 5 db db
      ≡ rename_document mallory (text uuid) (text (b'X' ∷ [])) (int 3) 5 (delete_by_id uuid db) db
    × (delete_document mallory (text uuid) db db).1 ≡ db
    × delete_document mallory (text uuid) db db
      ≡ delete_document mallory (text uuid) (delete_by_id uuid db) db
    × (save_document_content (λ c. some 10) mallory (text uuid) (some content) (int 3) 5 db db).1
      ≡ db
    × save_document_content (λ c. some 10) mallory (text uuid) (some content) (int 3) 5 db db
      ≡ save_document_content
          (λ c. some 10)
          mallory
          (text uuid)
          (some content)
          (int 3)
          5
          (delete_by_id uuid db)
          db
unfolding find_by_id uuid_eq find_grant resolve_effective_role text_eq is_uuid skip_hex
outsider-masked_example =
    outsider-masked (λ c. some 10) mallory uuid (text (b'X' ∷ [])) (int 3) (some content) 5 db db
      refl refl

changes-authorized_example :
    ((rename_document alice (text uuid) (text (b'X' ∷ [])) (int 3) 5 db db).1 ≢ db
      → role_has_capability (role_on alice uuid db) rename ≡ true)
    × ((save_document_content (λ c. some 10) alice (text uuid) (some content) (int 3) 5 db db).1
          ≢ db
        → role_has_capability (role_on alice uuid db) edit_content ≡ true)
    × ((delete_document alice (text uuid) db db).1 ≢ db
        → role_has_capability (role_on alice uuid db) delete ≡ true)
unfolding is_uuid skip_hex
changes-authorized_example =
    changes-authorized (λ c. some 10) alice uuid (text (b'X' ∷ [])) (int 3) (some content) 5 db db
      refl

list_documents-AreResolved_example :
    AreResolved alice [] (list_documents alice workspace 5 0 (λ title. true) db).0
list_documents-AreResolved_example =
    list_documents-AreResolved alice workspace 5 0 (λ title. true) db refl tt ((refl, tt), tt)

listed_alone :
    list_documents alice workspace 5 0 (λ title. true) db
    ≡ (record { document = row; role = owner } ∷ [], false)
unfolding list_documents list_accessible sort_listed insert_listed select_rows find_grant uuid_eq
listed_alone = refl
