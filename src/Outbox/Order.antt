-- ===== src/Outbox/Order.antt =====
-- src/lib/sync/pending-store.ts, `unackedOps`: its rows and their order.
use concord_dev.Outbox.Rows.{Has, Has, Has}
use concord_dev.Outbox.{
  PendingOpRecord, PendingOpRecord, OpSendState, OpSendState, OpSendState, get_all, same_state,
  insert_row, sort_rows, unacked_ops, comes_before, Database,
}
use concord_dev.Base.{
  ◌≡◌, ◌↔◌, ◌⊎◌, inl, inr, refl, Bool, true, false, ◌&&◌, List, [], ◌∷◌, ◌++◌, arith, if◌then◌else◌,
  Bool-cases,
}
use concord_dev.Base.Text.{Text, in_range}
use mathlib.Core.Path.{subst, subst⁻¹}
use concord_dev.Outbox.{pending, sent, durably_acked}

-- A row under a test is there when the test holds, or further on.
Has-if :
    (b : Bool) (r x : PendingOpRecord) (xs : List PendingOpRecord)
    → Has r (if b then x ∷ xs else xs) ↔ ((b ≡ true × x ≡ r) ⊎ Has r xs)
Has-if true r x xs = (
  λ h. elim h [ inl e ↦ inl (refl, e) | inr t ↦ inr t ],
  λ h. elim h [ inl p ↦ inl p.1 | inr t ↦ inr t ],
)
Has-if false r x xs = (λ h. inr h, λ h. elim h [ inl p ↦ absurd (ground (arith, p.0)) | inr t ↦ t ])

Has-append :
    (r : PendingOpRecord) (xs ys : List PendingOpRecord) → Has r (xs ++ ys) ↔ (Has r xs ⊎ Has r ys)
Has-append r [] ys = (λ h. inr h, λ h. elim h [ inl b ↦ elim b [ ] | inr t ↦ t ])
Has-append r (x ∷ xs) ys =
    let rest = Has-append r xs ys in
    (
      λ h. elim h [
        | inl e ↦ inl (inl e)
        | inr t ↦ elim (rest.0 t) [ inl a ↦ inl (inr a) | inr b ↦ inr b ]
      ],
      λ h. elim h [
        | inl a ↦ elim a [ inl e ↦ inl e | inr t ↦ inr (rest.1 (inl t)) ]
        | inr b ↦ inr (rest.1 (inr b))
      ],
    )

pub same_state_iff : (s t : OpSendState) → (same_state s t ≡ true) ↔ (s ≡ t)
same_state_iff pending pending = (λ e. refl, λ e. refl)
same_state_iff pending sent = (λ e. cc, λ e. cc)
same_state_iff pending durably_acked = (λ e. cc, λ e. cc)
same_state_iff sent pending = (λ e. cc, λ e. cc)
same_state_iff sent sent = (λ e. refl, λ e. refl)
same_state_iff sent durably_acked = (λ e. cc, λ e. cc)
same_state_iff durably_acked pending = (λ e. cc, λ e. cc)
same_state_iff durably_acked sent = (λ e. cc, λ e. cc)
same_state_iff durably_acked durably_acked = (λ e. refl, λ e. refl)

-- The row is in the state and in the range.
abbrev pub IsIn : OpSendState → Text → PendingOpRecord → Type 0
IsIn state prefix r = r.state ≡ state × in_range prefix r.id ≡ true

pub IsIn-iff :
    (state : OpSendState) (prefix : Text) (x : PendingOpRecord)
    → ((same_state x.state state && in_range prefix x.id) ≡ true) ↔ IsIn state prefix x
IsIn-iff state prefix x = ground (arith, same_state_iff x.state state)

get_all-Has :
    (state : OpSendState) (prefix : Text) (r : PendingOpRecord) (rows : List PendingOpRecord)
    → Has r (get_all state prefix rows) ↔ (Has r rows × IsIn state prefix r)
unfolding get_all
get_all-Has state prefix r [] = (λ h. elim h [ ], λ h. elim h.0 [ ])
get_all-Has state prefix r (x ∷ xs) =
    let rest = get_all-Has state prefix r xs in
    let test = same_state x.state state && in_range prefix x.id in
    let here = Has-if test r x (get_all state prefix xs) in
    (
      λ h. elim (here.0 h) [
        | inl p ↦ (inl p.1, subst (IsIn state prefix) p.1 ((IsIn-iff state prefix x).0 p.0))
        | inr t ↦ (inr (rest.0 t).0, (rest.0 t).1)
      ],
      λ h. elim h.0 [
        | inl e ↦ here.1 (inl ((IsIn-iff state prefix x).1 (subst⁻¹ (IsIn state prefix) e h.1), e))
        | inr t ↦ here.1 (inr (rest.1 (t, h.1)))
      ],
    )

module _ (locale_le : Text → Text → Bool) where
  insert_row-Has :
      (r x : PendingOpRecord) (xs : List PendingOpRecord)
      → Has r (insert_row locale_le x xs) ↔ Has r (x ∷ xs)
  unfolding insert_row
  insert_row-Has r x [] = (λ h. h, λ h. h)
  insert_row-Has r x (y ∷ ys) =
      let rest = insert_row-Has r x ys in
      elim (Bool-cases (comes_before locale_le x y)) [
        | inl e ↦ rw e (λ h. h, λ h. h)
        | inr e ↦ rw e (
          λ h. elim h [
            | inl p ↦ inr (inl p)
            | inr t ↦ elim (rest.0 t) [ inl p ↦ inl p | inr u ↦ inr (inr u) ]
          ],
          λ h. elim h [
            | inl p ↦ inr (rest.1 (inl p))
            | inr t ↦ elim t [ inl p ↦ inl p | inr u ↦ inr (rest.1 (inr u)) ]
          ],
        )
      ]

  sort_rows-Has :
      (r : PendingOpRecord) (xs : List PendingOpRecord) → Has r (sort_rows locale_le xs) ↔ Has r xs
  unfolding sort_rows
  sort_rows-Has r [] = (λ h. h, λ h. h)
  sort_rows-Has r (x ∷ xs) =
      let rest = sort_rows-Has r xs in
      let put_in = insert_row-Has r x (sort_rows locale_le xs) in
      (
        λ h. elim (put_in.0 h) [ inl p ↦ inl p | inr t ↦ inr (rest.0 t) ],
        λ h. elim h [ inl p ↦ put_in.1 (inl p) | inr t ↦ put_in.1 (inr (rest.1 t)) ],
      )

  -- The resend set holds exactly the rows of the store that are in the key range of the storage id
  -- and pending or sent.
  pub unacked_ops-Has :
      (storage_id : Text) (db : Database) (r : PendingOpRecord)
      → Has r (unacked_ops locale_le storage_id db) ↔ (
          Has r db.outbox
          × in_range (storage_id ++ b':' ∷ []) r.id ≡ true
          × (r.state ≡ pending ⊎ r.state ≡ sent))
  unfolding unacked_ops
  unacked_ops-Has storage_id db r =
      let prefix = storage_id ++ b':' ∷ [] in
      let waiting = get_all-Has pending prefix r db.outbox in
      let gone = get_all-Has sent prefix r db.outbox in
      let both = Has-append r (get_all pending prefix db.outbox) (get_all sent prefix db.outbox) in
      let all =
        sort_rows-Has r (get_all pending prefix db.outbox ++ get_all sent prefix db.outbox) in
      (
        λ h. elim (both.0 (all.0 h)) [
          | inl w ↦ let p = waiting.0 w in (p.0, p.1.1, inl p.1.0)
          | inr w ↦ let p = gone.0 w in (p.0, p.1.1, inr p.1.0)
        ],
        λ h. elim h.2 [
          | inl e ↦ all.1 (both.1 (inl (waiting.1 (h.0, (e, h.1)))))
          | inr e ↦ all.1 (both.1 (inr (gone.1 (h.0, (e, h.1)))))
        ],
      )

  -- No row stands before one that it should follow.
  abbrev pub IsOrdered : List PendingOpRecord → Type 0
  IsOrdered [] = Unit
  IsOrdered (x ∷ []) = Unit
  IsOrdered (x ∷ y ∷ ys) = comes_before locale_le x y ≡ true × IsOrdered (y ∷ ys)
