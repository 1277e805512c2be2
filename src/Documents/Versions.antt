-- ===== src/Documents/Versions.antt =====
-- src/server/repositories/documents.ts: rows of a document with at least some content version.
use concord_dev.Base.{
  ℕ, ◌+◌, ◌≤◌, ◌≡◌, ◌↔◌, inl, inr, refl, Bool, true, false, ◌&&◌, none, some, List, [], ◌∷◌, arith,
  Bool-cases, ◌==◌,
}
use concord_dev.Documents.Tables.{
  DocumentRow, find_by_id, uuid_eq, update_where, without, update_content_conditional,
}
use concord_dev.Base.Text.{Text, lower}
use concord_dev.Base.{map}
use concord_dev.Control.Value.{Json}

pub uuid_eq_iff : (s t : Text) → (uuid_eq s t ≡ true) ↔ (map lower s ≡ map lower t)
unfolding uuid_eq
uuid_eq_iff [] [] = (λ e. refl, λ e. refl)
uuid_eq_iff [] (d ∷ t) = (λ e. cc, λ e. cc)
uuid_eq_iff (c ∷ s) [] = (λ e. cc, λ e. cc)
uuid_eq_iff (c ∷ s) (d ∷ t) = ground (arith, uuid_eq_iff s t)

-- `id` is a primary key.
abbrev pub IsKeyed : List DocumentRow → Type 0
IsKeyed [] = Unit
IsKeyed (r ∷ rs) = find_by_id r.id rs ≡ none × IsKeyed rs

-- The rows with this id have at least this content version.
abbrev pub AtLeast : Text → ℕ → List DocumentRow → Type 0
AtLeast id v [] = Unit
AtLeast id v (r ∷ rs) = (uuid_eq r.id id ≡ true → v ≤ r.content_version) × AtLeast id v rs

pub find_by_id-AtLeast :
    (id : Text) (v : ℕ) (rows : List DocumentRow) → find_by_id id rows ≡ none → AtLeast id v rows
unfolding find_by_id
find_by_id-AtLeast id v [] h = tt
find_by_id-AtLeast id v (r ∷ rs) h = elim (Bool-cases (uuid_eq r.id id)) [
  | inl e ↦ absurd (ground (arith, h, e))
  | inr e ↦ (λ f. absurd (ground (arith, e, f)), find_by_id-AtLeast id v rs (ground (arith, h, e)))
]

find_by_id_same :
    (s t : Text) (rows : List DocumentRow)
    → uuid_eq s t ≡ true
    → find_by_id s rows ≡ none
    → find_by_id t rows ≡ none
unfolding find_by_id
find_by_id_same s t [] e h = refl
find_by_id_same s t (r ∷ rs) e h =
    ground (arith, uuid_eq_iff s t, uuid_eq_iff r.id s, uuid_eq_iff r.id t, find_by_id_same s t rs)

pub update_where-AtLeast :
    (matches : DocumentRow → Bool) (change : DocumentRow → DocumentRow)
    → ((r : DocumentRow) → (change r).id ≡ r.id)
    → ((r : DocumentRow) → r.content_version ≤ (change r).content_version)
    → (id : Text) (v : ℕ) (rows : List DocumentRow) → AtLeast id v rows
    → AtLeast id v (update_where matches change rows).1
unfolding update_where
update_where-AtLeast matches change same more id v [] h = h
update_where-AtLeast matches change same more id v (r ∷ rs) h = elim (Bool-cases (matches r)) [
  | inl e ↦ rw e (
    λ f.
        let below : v ≤ r.content_version = h.0 (rw (same r) at f) in
        let above : r.content_version ≤ (change r).content_version = more r in omega arith,
    h.1,
  )
  | inr e ↦ rw e (h.0, update_where-AtLeast matches change same more id v rs h.1)
]

pub without-AtLeast :
    (j id : Text) (v : ℕ) (rows : List DocumentRow)
    → AtLeast id v rows
    → AtLeast id v (without j rows)
unfolding without
without-AtLeast j id v [] h = h
without-AtLeast j id v (r ∷ rs) h = elim (Bool-cases (uuid_eq r.id j)) [
  | inl e ↦ rw e (without-AtLeast j id v rs h.1)
  | inr e ↦ rw e (h.0, without-AtLeast j id v rs h.1)
]

abbrev saved : Json → ℕ → DocumentRow → DocumentRow
saved content now r = record r {
  content = some content;
  content_version = r.content_version + 1;
  updated_at = now;
}

no_row :
    (id : Text) (v : ℕ) (content : Json) (now : ℕ) (rows : List DocumentRow)
    → find_by_id id rows ≡ none
    → (update_content_conditional id v content now rows).0 ≡ none
unfolding update_content_conditional update_where find_by_id
no_row id v content now [] h = refl
no_row id v content now (r ∷ rs) h = elim (Bool-cases (uuid_eq r.id id)) [
  | inl e ↦ absurd (ground (arith, h, e))
  | inr e ↦ rw e (no_row id v content now rs (rw e at h))
]

-- A save that was applied leaves its document above the version that it expected.
pub saved-AtLeast :
    (id : Text) (v : ℕ) (content : Json) (now : ℕ) (rows : List DocumentRow) (row : DocumentRow)
    → IsKeyed rows
    → (update_content_conditional id v content now rows).0 ≡ some row
    → AtLeast id (v + 1) (update_content_conditional id v content now rows).1
unfolding update_content_conditional update_where find_by_id
saved-AtLeast id v content now [] row keyed e = tt
saved-AtLeast id v content now (r ∷ rs) row keyed e =
    elim (Bool-cases (uuid_eq r.id id && r.content_version == v)) [
      | inl hit ↦ rw hit (
        λ f. ground (arith, hit),
        find_by_id-AtLeast id (v + 1) rs (find_by_id_same r.id id rs (ground (arith, hit)) keyed.0),
      )
      | inr miss ↦ rw miss (
        λ f. absurd (
            ground (
              arith,
              rw miss at e,
              f,
              no_row id v content now rs (find_by_id_same r.id id rs f keyed.0),
            )),
        saved-AtLeast id v content now rs row keyed.1 (rw miss at e),
      )
    ]

pub AtLeast-none :
    (id : Text) (v : ℕ) (content : Json) (now : ℕ) (rows : List DocumentRow)
    → AtLeast id (v + 1) rows
    → (update_content_conditional id v content now rows).0 ≡ none
unfolding update_content_conditional update_where
AtLeast-none id v content now [] h = refl
AtLeast-none id v content now (r ∷ rs) h = elim (Bool-cases (uuid_eq r.id id)) [
  | inl e ↦
      let above : v + 1 ≤ r.content_version = h.0 e in
      let other : (r.content_version == v) ≡ false = ground arith in
      rw (e, other) (AtLeast-none id v content now rs h.1)
  | inr e ↦ rw e (AtLeast-none id v content now rs h.1)
]
