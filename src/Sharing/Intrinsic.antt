-- ===== src/Sharing/Intrinsic.antt =====
-- src/server/services/permissions.ts, `grantPermission`: the owner of a document and its grants.
use concord_dev.Base.{
  ◌≡◌, ◌⊎◌, inl, inr, refl, ap, ◌∙◌, true, false, none, some, List, [], ◌∷◌, arith, Bool-cases,
  Option-cases,
}
use concord_dev.Access.{Actor, DocumentRole, Outcome, returns, throws, ServerError}
use concord_dev.Documents.Inputs.{Given}
use concord_dev.Documents.Tables.{DocumentRow, find_grant, role_of, uuid_eq}
use concord_dev.Documents.Versions.{uuid_eq_iff}
use concord_dev.Documents.Roles.{IsCanonical, uuid_eq_canonical}
use concord_dev.Sharing.{UserRow, find_user, grant_to, ServerTables, validate_target}
use concord_dev.Sharing.Grants.{role-apply_grant}
use concord_dev.Base.Text.{Text, text_eq}

-- The ids of the users are in lower case.
abbrev pub AreUsers : List UserRow → Type 0
AreUsers [] = Unit
AreUsers (u ∷ us) = IsCanonical (UserRow.id u) × AreUsers us

find_user-IsCanonical :
    (id : Text) (us : List UserRow) (u : UserRow)
    → find_user id us ≡ some u
    → AreUsers us
    → uuid_eq (UserRow.id u) id ≡ true × IsCanonical (UserRow.id u)
unfolding find_user
find_user-IsCanonical id [] u e h = absurd (ground (arith, e))
find_user-IsCanonical id (x ∷ xs) u e h = elim (Bool-cases (uuid_eq (UserRow.id x) id)) [
  | inl hit ↦ let same : x ≡ u = ground (arith, rw hit at e) in (rw (← same) hit, rw (← same) h.0)
  | inr miss ↦ find_user-IsCanonical id xs u (rw miss at e) h.1
]

validate_cases :
    (o : Outcome Text) → ((e : ServerError) × (o ≡ throws e)) ⊎ ((t : Text) × (o ≡ returns t))
validate_cases (throws e) = inl (e, refl)
validate_cases (returns t) = inr (t, refl)

-- A grant never goes to the owner of the document, in whatever case the id of the target is written:
-- where the ids of the users and of the owner are stored in lower case, an owner without a grant on
-- the document has none after it.
pub grant_to-owner :
    (actor : Actor) (document : DocumentRow) (target : Given) (role : DocumentRole)
    (s : ServerTables)
    → AreUsers s.users
    → IsCanonical document.owner_user_id
    → find_grant document.id document.owner_user_id s.tables.grants ≡ none
    → role_of (
        find_grant document.id document.owner_user_id
          (grant_to actor document target role s).1.tables.grants)
      ≡ none
unfolding grant_to
grant_to-owner actor document target role s users owned h =
    elim (validate_cases (validate_target actor target)) [
      | inl (x, e) ↦ rw (e, grant_to) (ap role_of h)
      | inr (id, e) ↦ elim (Option-cases (find_user id s.users)) [
        | inl f ↦ rw (e, f, grant_to) (ap role_of h)
        | inr (u, f) ↦ elim (Bool-cases (text_eq (UserRow.id u) document.owner_user_id)) [
          | inl g ↦ rw (e, f, g, grant_to) (ap role_of h)
          | inr g ↦
              let known = find_user-IsCanonical id s.users u f users in
              let other : uuid_eq id document.owner_user_id ≡ false = ground (
                arith,
                g,
                known.0,
                uuid_eq_canonical (UserRow.id u) document.owner_user_id known.1 owned,
                uuid_eq_iff (UserRow.id u) id,
                uuid_eq_iff id document.owner_user_id,
                uuid_eq_iff (UserRow.id u) document.owner_user_id,
              ) in
              rw (e, f, g, grant_to)
                (role-apply_grant actor document id role s.tables document.id document.owner_user_id
                  ∙ rw (other, h) (ground arith))
        ]
      ]
    ]
