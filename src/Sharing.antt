-- ===== src/Sharing.antt =====
-- src/server/services/permissions.ts: grants and revocations of direct roles, over the tables of
-- Documents and the table of users.
pub mod Grants
pub mod Owners
pub mod Intrinsic
mod Tests
use concord_dev.Base.{
  ℕ, zero, suc, ◌+◌, ◌*◌, ◌-◌, ◌^◌, ◌≤◌, ◌<◌, ◌≡◌, ◌≢◌, ◌↔◌, ◌⊎◌, inl, inr, refl, sym, ap, ◌∙◌,
  Bool, true, false, not, ◌&&◌, ◌||◌, Option, none, some, List, [], ◌∷◌, ◌++◌, arith, ltb, leb,
  length, if◌then◌else◌, Bool-cases, Option-cases,
}
use concord_dev.Access.{
  Actor, EffectiveRole, Capability, owner, manage_permissions, Outcome, returns, throws,
  ServerError, not_found, validation, role_has_capability, of_grant, DocumentRole, grants_editor,
  grants_commenter, grants_viewer,
}
use concord_dev.Documents.Inputs.{Given, text, undefined, is_uuid, parse_document_id}
use concord_dev.Documents.Tables.{
  DatabaseTables, DocumentRow, GrantRow, find_by_id, find_grant, role_of, uuid_eq, audited,
  AuditAction, permission_granted, permission_updated, permission_revoked,
}
use concord_dev.Base.Text.{Text, text_eq, trim}
use Prim.Native.String.{String}

pub record UserRow : Type 0 where
  pub id : Text
  pub clerk_user_id : Text

pub record ServerTables : Type 0 where
  pub tables : DatabaseTables
  pub users : List UserRow

-- A user of the sign-in service: its id, and its addresses with their verification.
pub record ClerkUser : Type 0 where
  pub id : Text
  pub addresses : List (Text × Bool)

unfoldable pub find_user : Text → List UserRow → Option UserRow
find_user id [] = none
find_user id (u ∷ us) = if uuid_eq u.id id then some u else find_user id us

unfoldable pub find_clerk_user : Text → List UserRow → Option UserRow
find_clerk_user clerk_user_id [] = none
find_clerk_user clerk_user_id (u ∷ us) =
    if text_eq u.clerk_user_id clerk_user_id then some u else find_clerk_user clerk_user_id us

-- `findOrCreateByClerkUserId`; `fresh_id` is what the database chooses at an insert.
unfoldable pub find_or_create : Text → Text → List UserRow → Text × List UserRow
find_or_create clerk_user_id fresh_id users = elim (find_clerk_user clerk_user_id users) [
  | some u ↦ (u.id, users)
  | none ↦ (fresh_id, record { id = fresh_id; clerk_user_id = clerk_user_id } ∷ users)
]

-- `requireOwnedDocument`
unfoldable pub require_owned_document : Actor → Text → DatabaseTables → Outcome DocumentRow
require_owned_document actor id db = elim (find_by_id id db.documents) [
  | none ↦ throws (not_found "Document not found")
  | some document ↦
      let effective =
        if text_eq document.owner_user_id actor.user_id
        then some owner
        else elim (role_of (find_grant id actor.user_id db.grants)) [
          | none ↦ none
          | some role ↦ some (of_grant role)
        ] in
      if role_has_capability effective manage_permissions
      then returns document
      else throws (not_found "Document not found")
]

unfoldable pub validate_target : Actor → Given → Outcome Text
validate_target actor (text target) =
    if not (is_uuid target)
    then throws (validation "Invalid target user")
    else if text_eq target actor.user_id
    then throws (validation "Cannot grant permissions to yourself")
    else returns target
validate_target actor _ = throws (validation "Invalid target user")

-- `roleSchema`, of the text that is given
abbrev pub editor_text : Text
editor_text = b'E' ∷ b'D' ∷ b'I' ∷ b'T' ∷ b'O' ∷ b'R' ∷ []

abbrev pub commenter_text : Text
commenter_text = b'C' ∷ b'O' ∷ b'M' ∷ b'M' ∷ b'E' ∷ b'N' ∷ b'T' ∷ b'E' ∷ b'R' ∷ []

abbrev pub viewer_text : Text
viewer_text = b'V' ∷ b'I' ∷ b'E' ∷ b'W' ∷ b'E' ∷ b'R' ∷ []

unfoldable pub parse_role : Given → Outcome DocumentRole
parse_role (text s) =
    if text_eq s editor_text
    then returns grants_editor
    else if text_eq s commenter_text
    then returns grants_commenter
    else if text_eq s viewer_text
    then returns grants_viewer
    else throws (validation "Invalid role")
parse_role _ = throws (validation "Invalid role")

-- `insert … on conflict (document, user) do update`
unfoldable pub upsert_grant : GrantRow → List GrantRow → List GrantRow
upsert_grant grant [] = grant ∷ []
upsert_grant grant (g ∷ gs) =
    if uuid_eq g.document_id grant.document_id && uuid_eq g.user_id grant.user_id
    then record g { role = grant.role; granted_by_user_id = grant.granted_by_user_id } ∷ gs
    else g ∷ upsert_grant grant gs

unfoldable pub delete_grant : Text → Text → List GrantRow → List GrantRow
delete_grant document_id user_id [] = []
delete_grant document_id user_id (g ∷ gs) =
    if uuid_eq g.document_id document_id && uuid_eq g.user_id user_id
    then delete_grant document_id user_id gs
    else g ∷ delete_grant document_id user_id gs

-- The sign-in service, and what the language does to texts: `toLowerCase`, the test of
-- `z.email().max(254)`, and the users that `getUserList` answers for an address.
pub record SignIn : Type 0 where
  pub lower_case : Text → Text
  pub is_email : Text → Bool
  pub get_user_list : Text → List ClerkUser

unfoldable pub has_verified : SignIn → Text → List (Text × Bool) → Bool
has_verified sign_in email [] = false
has_verified sign_in email ((address, verified) ∷ rest) =
    text_eq (sign_in.lower_case address) email && verified || has_verified sign_in email rest

unfoldable pub matching : SignIn → Text → List ClerkUser → List ClerkUser
matching sign_in email [] = []
matching sign_in email (u ∷ us) =
    if has_verified sign_in email u.addresses
    then u ∷ matching sign_in email us
    else matching sign_in email us

-- The target by email or by id, and the table of users after it was looked up.
unfoldable pub resolve_target :
    SignIn → Given → Given → Text → List UserRow → Outcome Given × List UserRow
resolve_target sign_in target undefined fresh_id users = (returns target, users)
resolve_target sign_in undefined (text s) fresh_id users =
    let email = sign_in.lower_case (trim s) in
    if sign_in.is_email email
    then elim (matching sign_in email (sign_in.get_user_list email)) [
      | u ∷ [] ↦
          let found = find_or_create (ClerkUser.id u) fresh_id users in
          (returns (text found.0), found.1)
      | _ ↦ (
        throws (
            validation
              "No account with this verified email. Ask them to sign up and verify their email, then try again."),
        users,
      )
    ]
    else (throws (validation "Enter a valid email address"), users)
resolve_target sign_in undefined email fresh_id users =
    (throws (validation "Enter a valid email address"), users)
resolve_target sign_in target email fresh_id users =
    (throws (validation "Use either email or collaboration ID"), users)

-- The transaction of `grantPermission`.
unfoldable pub apply_grant :
    Actor → DocumentRow → Text → DocumentRole → DatabaseTables → DatabaseTables
apply_grant actor document target role db =
    let action : AuditAction = elim (find_grant document.id target db.grants) [
      | none ↦ permission_granted
      | some g ↦ permission_updated
    ] in
    audited actor.user_id action document.id document.organization_id (record db {
      grants =
          upsert_grant
            (record {
              document_id = document.id;
              user_id = target;
              role = role;
              granted_by_user_id = actor.user_id;
            })
            db.grants;
    })

-- From `validateTarget` on.
unfoldable pub grant_to :
    Actor → DocumentRow → Given → DocumentRole → ServerTables → Outcome DocumentRole × ServerTables
grant_to actor document target role s = elim (validate_target actor target) [
  | throws e ↦ (throws e, s)
  | returns id ↦ elim (find_user id s.users) [
    | none ↦ (throws (validation "Target user does not exist"), s)
    | some u ↦
        if text_eq (UserRow.id u) document.owner_user_id
        then (throws (validation "Cannot change the owner's role"), s)
        else (returns role, record s { tables = apply_grant actor document id role s.tables })
  ]
]

unfoldable pub grant_permission :
    SignIn
    → Actor
    → Given
    → Given
    → Given
    → Given
    → Text
    → ServerTables
    → Outcome DocumentRole × ServerTables
grant_permission sign_in actor document_id target email role fresh_id s =
    elim (parse_document_id document_id) [
      | throws e ↦ (throws e, s)
      | returns id ↦ elim (require_owned_document actor id s.tables) [
        | throws e ↦ (throws e, s)
        | returns document ↦ elim (parse_role role) [
          | throws e ↦ (throws e, s)
          | returns r ↦
              let found = resolve_target sign_in target email fresh_id s.users in
              let after = record s { users = found.1 } in
              elim found.0 [
                | throws e ↦ (throws e, after)
                | returns t ↦ grant_to actor document t r after
              ]
        ]
      ]
    ]

-- The transaction of `revokePermission`: if there was a grant, and the tables after.
unfoldable pub apply_revoke : Actor → DocumentRow → Text → DatabaseTables → Bool × DatabaseTables
apply_revoke actor document target db = elim (find_grant document.id target db.grants) [
  | none ↦ (false, db)
  | some g ↦ (
    true,
    audited actor.user_id permission_revoked document.id document.organization_id
        (record db { grants = delete_grant document.id target db.grants }),
  )
]

unfoldable pub revoke_permission :
    Actor → Given → Given → DatabaseTables → Outcome Bool × DatabaseTables
revoke_permission actor document_id target db = elim (parse_document_id document_id) [
  | throws e ↦ (throws e, db)
  | returns id ↦ elim (require_owned_document actor id db) [
    | throws e ↦ (throws e, db)
    | returns document ↦ elim (validate_target actor target) [
      | throws e ↦ (throws e, db)
      | returns t ↦ let done = apply_revoke actor document t db in (returns done.0, done.1)
    ]
  ]
]

unfoldable pub list_by_document : Text → List GrantRow → List GrantRow
list_by_document document_id [] = []
list_by_document document_id (g ∷ gs) =
    if uuid_eq g.document_id document_id
    then g ∷ list_by_document document_id gs
    else list_by_document document_id gs

unfoldable pub list_grants : Actor → Given → DatabaseTables → Outcome (List GrantRow)
list_grants actor document_id db = elim (parse_document_id document_id) [
  | throws e ↦ throws e
  | returns id ↦ elim (require_owned_document actor id db) [
    | throws e ↦ throws e
    | returns document ↦ returns (list_by_document document.id db.grants)
  ]
]
