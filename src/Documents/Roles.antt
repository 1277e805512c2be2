-- ===== src/Documents/Roles.antt =====
-- The roles of `listAccessible` and those of src/server/auth/authorization.ts.
use concord_dev.Base.{
  ℕ, zero, suc, ◌+◌, ◌<◌, ◌≡◌, ◌↔◌, inl, inr, refl, sym, ap, ◌∙◌, Bool, true, ◌&&◌, Option, none,
  some, List, [], ◌∷◌, arith, length, Bool-cases,
}
use concord_dev.Access.{Actor, DocumentRole, resolve_effective_role}
use concord_dev.Documents.Tables.{
  DatabaseTables, DocumentRow, GrantRow, find_grant, role_of, uuid_eq,
}
use concord_dev.Documents.Versions.{uuid_eq_iff}
use concord_dev.Documents.Listing.{
  Listed, Scope, workspace, shared, in_scope, listed_role, comes_first, insert_listed, sort_listed,
  select_rows, list_accessible, list_documents,
}
use concord_dev.Base.Text.{Text, text_eq, text_eq_iff, lower}
use concord_dev.Base.{map, take, drop, length-take, length-drop}

-- A uuid as the database gives it, in lower case.
abbrev pub IsCanonical : Text → Type 0
IsCanonical s = map lower s ≡ s

abbrev pub IsCanonicalOption : Option Text → Type 0
IsCanonicalOption none = Unit
IsCanonicalOption (some s) = IsCanonical s

abbrev pub AreStored : List DocumentRow → Type 0
AreStored [] = Unit
AreStored (d ∷ ds) =
    (IsCanonical d.owner_user_id × IsCanonicalOption d.organization_id) × AreStored ds

-- Each row has the role that the policy resolves for the actor.
abbrev pub AreResolved : Actor → List GrantRow → List Listed → Type 0
AreResolved actor grants [] = Unit
AreResolved actor grants (l ∷ ls) =
    resolve_effective_role actor l.document.owner_user_id l.document.organization_id
        (role_of (find_grant l.document.id actor.user_id grants))
      ≡ some l.role
    × AreResolved actor grants ls

pub uuid_eq_canonical : (s t : Text) → IsCanonical s → IsCanonical t → uuid_eq s t ≡ text_eq s t
uuid_eq_canonical s t hs ht = elim (Bool-cases (uuid_eq s t)) [
  | inl e ↦ e ∙ sym ((text_eq_iff s t).1 (sym hs ∙ ((uuid_eq_iff s t).0 e ∙ ht)))
  | inr e ↦ elim (Bool-cases (text_eq s t)) [
    | inl f ↦
        absurd
          (ground (arith, e, (uuid_eq_iff s t).1 (ap (λ x. map lower x) ((text_eq_iff s t).0 f))))
    | inr f ↦ e ∙ sym f
  ]
]

row-resolved :
    (user_id : Text) (organization organization_id : Option Text) (scope : Scope) (d : DocumentRow)
    (role : Option DocumentRole)
    → d.organization_id ≡ organization_id
    → IsCanonical user_id
    → IsCanonicalOption organization
    → IsCanonical d.owner_user_id
    → IsCanonicalOption organization_id
    → in_scope user_id organization scope d role ≡ true
    → resolve_effective_role
        (record { user_id = user_id; organization = organization })
        d.owner_user_id
        organization_id
        role
      ≡ some (listed_role user_id d role)
unfolding resolve_effective_role
row-resolved user_id org o shared d none eo cu co cd cp h = absurd (ground (arith, h))
row-resolved user_id org o shared d (some r) eo cu co cd cp h =
    ground (arith, h, uuid_eq_canonical d.owner_user_id user_id cd cu)
row-resolved user_id org o workspace d (some r) eo cu co cd cp h =
    ground (arith, uuid_eq_canonical d.owner_user_id user_id cd cu)
row-resolved user_id none o workspace d none eo cu co cd cp h =
    ground (arith, h, uuid_eq_canonical d.owner_user_id user_id cd cu)
row-resolved user_id (some q) none workspace d none eo cu co cd cp h =
    absurd (ground (arith, rw eo at h))
row-resolved user_id (some q) (some p) workspace d none eo cu co cd cp h =
    let there : uuid_eq p q ≡ true = rw eo at h in
    ground
      (arith, there, uuid_eq_canonical p q cp co, uuid_eq_canonical d.owner_user_id user_id cd cu)

select_rows-AreResolved :
    (actor : Actor) (scope : Scope) (matches : Text → Bool) (grants : List GrantRow)
    (ds : List DocumentRow)
    → IsCanonical actor.user_id
    → IsCanonicalOption actor.organization
    → AreStored ds
    → AreResolved actor grants
        (select_rows actor.user_id actor.organization scope matches grants ds)
unfolding select_rows
select_rows-AreResolved actor scope matches grants [] cu co stored = tt
select_rows-AreResolved actor scope matches grants (d ∷ ds) cu co stored =
    let role = role_of (find_grant d.id actor.user_id grants) in
    let rest = select_rows-AreResolved actor scope matches grants ds cu co stored.1 in
    elim (Bool-cases (in_scope actor.user_id actor.organization scope d role && matches d.title)) [
      | inl e ↦ rw e (
        row-resolved actor.user_id actor.organization d.organization_id scope d role refl cu co
            stored.0.0 stored.0.1 (ground (arith, e)),
        rest,
      )
      | inr e ↦ rw e rest
    ]

insert_listed-AreResolved :
    (actor : Actor) (grants : List GrantRow) (l : Listed) (ls : List Listed)
    → AreResolved actor grants (l ∷ ls)
    → AreResolved actor grants (insert_listed l ls)
unfolding insert_listed
insert_listed-AreResolved actor grants l [] h = h
insert_listed-AreResolved actor grants l (x ∷ xs) h = elim (Bool-cases (comes_first l x)) [
  | inl e ↦ rw e h
  | inr e ↦ rw e (h.1.0, insert_listed-AreResolved actor grants l xs (h.0, h.1.1))
]

sort_listed-AreResolved :
    (actor : Actor) (grants : List GrantRow) (ls : List Listed)
    → AreResolved actor grants ls
    → AreResolved actor grants (sort_listed ls)
unfolding sort_listed
sort_listed-AreResolved actor grants [] h = h
sort_listed-AreResolved actor grants (l ∷ ls) h =
    insert_listed-AreResolved actor grants l (sort_listed ls)
      (h.0, sort_listed-AreResolved actor grants ls h.1)

take-AreResolved :
    (actor : Actor) (grants : List GrantRow) (n : ℕ) (ls : List Listed)
    → AreResolved actor grants ls
    → AreResolved actor grants (take n ls)
take-AreResolved actor grants zero ls h = tt
take-AreResolved actor grants (suc n) [] h = tt
take-AreResolved actor grants (suc n) (l ∷ ls) h = (h.0, take-AreResolved actor grants n ls h.1)

drop-AreResolved :
    (actor : Actor) (grants : List GrantRow) (n : ℕ) (ls : List Listed)
    → AreResolved actor grants ls
    → AreResolved actor grants (drop n ls)
drop-AreResolved actor grants zero ls h = h
drop-AreResolved actor grants (suc n) [] h = tt
drop-AreResolved actor grants (suc n) (l ∷ ls) h = drop-AreResolved actor grants n ls h.1

-- Where the ids of the actor and of the stored documents are in lower case, as the database gives
-- them, each document of a listed page has the role that the policy resolves for the actor.
pub list_documents-AreResolved :
    (actor : Actor) (scope : Scope) (page_size offset : ℕ) (matches : Text → Bool)
    (db : DatabaseTables)
    → IsCanonical actor.user_id
    → IsCanonicalOption actor.organization
    → AreStored db.documents
    → AreResolved actor db.grants (list_documents actor scope page_size offset matches db).0
unfolding list_documents list_accessible
list_documents-AreResolved actor scope page_size offset matches db cu co stored =
    let found = select_rows actor.user_id actor.organization scope matches db.grants db.documents in
    take-AreResolved actor db.grants page_size _ (
      take-AreResolved actor db.grants (page_size + 1) _ (
        drop-AreResolved actor db.grants offset _ (
          sort_listed-AreResolved actor db.grants found
            (select_rows-AreResolved actor scope matches db.grants db.documents cu co stored))))

-- `hasMore` is true exactly when the query has rows behind the page.
pub list_documents_has_more :
    (actor : Actor) (scope : Scope) (page_size offset : ℕ) (matches : Text → Bool)
    (db : DatabaseTables)
    → ((list_documents actor scope page_size offset matches db).1 ≡ true) ↔ (
        offset + page_size
        < length (
            sort_listed
              (select_rows actor.user_id actor.organization scope matches db.grants db.documents)))
unfolding list_documents list_accessible
list_documents_has_more actor scope page_size offset matches db =
    let all =
      sort_listed
        (select_rows actor.user_id actor.organization scope matches db.grants db.documents) in
    ground (arith, length-take (page_size + 1) (drop offset all), length-drop offset all)
