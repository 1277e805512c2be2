-- ===== src/Outbox/Rows.antt =====
-- The laws of the object store: what `get` finds after `put` and `delete`.
use concord_dev.Base.{
  ◌≡◌, ◌⊎◌, inl, inr, refl, none, some, List, [], ◌∷◌, arith, if◌then◌else◌, Bool-cases,
}
use concord_dev.Outbox.{get, put, delete, PendingOpRecord}
use concord_dev.Base.Text.{Text, text_eq, text_eq_iff}

pub get-id :
    (k : Text) (rows : List PendingOpRecord) (r : PendingOpRecord) → get k rows ≡ some r → r.id ≡ k
unfolding get
get-id k [] r e = cc
get-id k (x ∷ xs) r e = ground (arith, text_eq_iff x.id k, get-id k xs r)

pub get-put :
    (k : Text) (r : PendingOpRecord) (rows : List PendingOpRecord)
    → get k (put r rows) ≡ (if text_eq r.id k then some r else get k rows)
unfolding get put
get-put k r [] = refl
get-put k r (x ∷ xs) =
    ground (arith, text_eq_iff x.id r.id, text_eq_iff r.id k, text_eq_iff x.id k, get-put k r xs)

pub get-delete :
    (k j : Text) (rows : List PendingOpRecord)
    → get k (delete j rows) ≡ (if text_eq j k then none else get k rows)
unfolding get delete
get-delete k j [] = ground arith
get-delete k j (x ∷ xs) =
    ground (arith, text_eq_iff x.id j, text_eq_iff j k, text_eq_iff x.id k, get-delete k j xs)

-- A row is in the store.
abbrev pub Has : PendingOpRecord → List PendingOpRecord → Type 0
Has r [] = ⊥
Has r (x ∷ xs) = (x ≡ r) ⊎ Has r xs

pub get-Has :
    (k : Text) (rows : List PendingOpRecord) (r : PendingOpRecord)
    → get k rows ≡ some r
    → Has r rows
unfolding get
get-Has k [] r e = cc
get-Has k (x ∷ xs) r e = elim (Bool-cases (text_eq x.id k)) [
  | inl hit ↦ inl (ground arith)
  | inr miss ↦ inr (get-Has k xs r (ground arith))
]
