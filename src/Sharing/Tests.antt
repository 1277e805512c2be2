-- ===== src/Sharing/Tests.antt =====
-- Grants and revocations on a concrete database.
use concord_dev.Base.{ℕ, zero, suc, ◌≡◌, refl, true, ◌&&◌, none, some, [], ◌∷◌, if◌then◌else◌}
use concord_dev.Access.{Actor, returns, throws, not_found, grants_editor, grants_viewer}
use concord_dev.Documents.Inputs.{text, undefined, is_uuid, skip_hex, parse_document_id}
use concord_dev.Documents.Tables.{DocumentRow, GrantRow, find_by_id, find_grant, role_of, uuid_eq}
use concord_dev.Sharing.{
  ServerTables, SignIn, grant_permission, revoke_permission, apply_grant, editor_text,
  require_owned_document, parse_role, resolve_target, grant_to, validate_target, find_user,
  list_grants,
}
use concord_dev.Sharing.Grants.{role-apply_grant}
use concord_dev.Sharing.Intrinsic.{grant_to-owner}
use concord_dev.Sharing.Owners.{strangers-masked}
use concord_dev.Base.Text.{Text, text_eq}

abbrev repeated : ℕ → ℕ → Text → Text
repeated c zero s = s
repeated c (suc n) s = c ∷ repeated c n s

abbrev uuid_of : ℕ → Text
uuid_of c =
    repeated c 8
      (b'-' ∷ repeated c 4 (b'-' ∷ repeated c 4 (b'-' ∷ repeated c 4 (b'-' ∷ repeated c 12 []))))

abbrev alice : Actor
alice = record { user_id = uuid_of b'1'; organization = none }

abbrev mallory : Actor
mallory = record { user_id = uuid_of b'2'; organization = none }

abbrev row : DocumentRow
row = record {
  id = uuid_of b'a';
  title = b'T' ∷ [];
  owner_user_id = alice.user_id;
  organization_id = none;
  initial_content = none;
  content = none;
  content_version = 1;
  metadata_version = 1;
  created_at = 0;
  updated_at = 0;
}

abbrev editor_grant : GrantRow
editor_grant = record {
  document_id = row.id;
  user_id = mallory.user_id;
  role = grants_editor;
  granted_by_user_id = alice.user_id;
}

abbrev server : ServerTables
server = record {
  tables = record { documents = row ∷ []; grants = editor_grant ∷ []; audit = [] };
  users = record { id = mallory.user_id; clerk_user_id = b'c' ∷ [] } ∷ [];
}

abbrev sign_in : SignIn
sign_in = record { lower_case = λ s. s; is_email = λ s. true; get_user_list = λ s. [] }

owner_grants :
    (grant_permission sign_in alice
      (text row.id)
      (text mallory.user_id)
      undefined
      (text editor_text)
      []
      server).0
    ≡ returns grants_editor
unfolding grant_permission parse_document_id is_uuid skip_hex require_owned_document find_by_id
    uuid_eq text_eq parse_role resolve_target grant_to validate_target find_user
owner_grants = refl

strangers-masked_example :
    grant_permission sign_in mallory
        (text row.id)
        (text mallory.user_id)
        undefined
        (text editor_text)
        []
        server
      ≡ (throws (not_found "Document not found"), server)
    × revoke_permission mallory (text row.id) (text mallory.user_id) server.tables
      ≡ (throws (not_found "Document not found"), server.tables)
    × list_grants mallory (text row.id) server.tables ≡ throws (not_found "Document not found")
unfolding find_by_id uuid_eq text_eq is_uuid skip_hex
strangers-masked_example =
    strangers-masked sign_in mallory row.id (text mallory.user_id) undefined (text editor_text) []
      server refl refl

role-apply_grant_example :
    role_of (
      find_grant row.id mallory.user_id
        (apply_grant alice row mallory.user_id grants_viewer server.tables).grants)
    ≡ (if uuid_eq row.id row.id && uuid_eq mallory.user_id mallory.user_id
        then some grants_viewer
        else role_of (find_grant row.id mallory.user_id server.tables.grants))
role-apply_grant_example =
    role-apply_grant alice row mallory.user_id grants_viewer server.tables row.id mallory.user_id

grant_to-owner_example :
    role_of (
      find_grant row.id row.owner_user_id
        (grant_to alice row (text mallory.user_id) grants_viewer server).1.tables.grants)
    ≡ none
unfolding find_grant uuid_eq
grant_to-owner_example =
    grant_to-owner alice row (text mallory.user_id) grants_viewer server (refl, tt) refl refl
