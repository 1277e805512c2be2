-- ===== src/Comments/Rows.antt =====
-- src/server/services/comments.ts: what the other requests on comments leave of a thread and a message.
use concord_dev.Access.{Outcome, ServerError, throws, returns}
use mathlib.Core.Path.{ap₂}
use concord_dev.Documents.Versions.{uuid_eq_iff, uuid_eq_iff}
use concord_dev.Comments.Inputs.{CommentAnchor}
use concord_dev.Documents.Tables.{uuid_eq}
use concord_dev.Comments.Replies.{update_threads}
use concord_dev.Comments.{
  find_thread_by_id, find_message, find_thread_by_id, find_message, CommentThreadRow,
  find_thread_by_id, CommentMessageRow, CommentTables, CommentThreadStatus, resolved, open_,
}
use concord_dev.Base.Text.{lower, Text, Text, Text, Text, Text}
use concord_dev.Base.{
  ℕ, ◌≡◌, ◌⊎◌, inl, inr, refl, sym, ap, ◌∙◌, Bool, true, none, some, List, [], ◌∷◌, arith,
  Bool-cases, map, some-inj,
}

lower-lower : (c : ℕ) → lower (lower c) ≡ lower c
lower-lower c = ground arith

pub stored_stored : (s : Text) → map lower (map lower s) ≡ map lower s
stored_stored [] = refl
stored_stored (c ∷ s) = ap₂ ◌∷◌ (lower-lower c) (stored_stored s)

-- Comparison goes by the stored form.
uuid_eq-stored : (x a b : Text) → map lower a ≡ map lower b → uuid_eq x a ≡ uuid_eq x b
uuid_eq-stored x a b h = elim (Bool-cases (uuid_eq x a)) [
  | inl e ↦ e ∙ sym ((uuid_eq_iff x b).1 ((uuid_eq_iff x a).0 e ∙ h))
  | inr e ↦ elim (Bool-cases (uuid_eq x b)) [
    | inl f ↦ absurd (ground (arith, e, (uuid_eq_iff x a).1 ((uuid_eq_iff x b).0 f ∙ sym h)))
    | inr f ↦ e ∙ sym f
  ]
]

same_stored : (i id : Text) → uuid_eq (map lower i) id ≡ true → map lower i ≡ map lower id
same_stored i id h = sym (stored_stored i) ∙ (uuid_eq_iff (map lower i) id).0 h

find_thread-stored :
    (a b : Text) (ts : List CommentThreadRow)
    → map lower a ≡ map lower b
    → find_thread_by_id a ts ≡ find_thread_by_id b ts
unfolding find_thread_by_id
find_thread-stored a b [] h = refl
find_thread-stored a b (t ∷ ts) h =
    ground (arith, uuid_eq-stored t.id a b h, find_thread-stored a b ts h)

find_message-stored :
    (a b : Text) (ms : List CommentMessageRow)
    → map lower a ≡ map lower b
    → find_message a ms ≡ find_message b ms
unfolding find_message
find_message-stored a b [] h = refl
find_message-stored a b (m ∷ ms) h =
    ground (arith, uuid_eq-stored m.id a b h, find_message-stored a b ms h)

-- A new row, whose id was not there, hides no row.
pub find_thread-insert :
    (i id : Text) (new row : CommentThreadRow) (ts : List CommentThreadRow)
    → new.id ≡ map lower i
    → find_thread_by_id i ts ≡ none
    → find_thread_by_id id ts ≡ some row
    → find_thread_by_id id (new ∷ ts) ≡ some row
unfolding find_thread_by_id
find_thread-insert i id new row ts e free there = elim (Bool-cases (uuid_eq new.id id)) [
  | inl h ↦
      let k = find_thread-stored i id ts (same_stored i id (ap (λ x. uuid_eq x id) (sym e) ∙ h)) in
      absurd (ground (arith, free, there, k))
  | inr h ↦ rw (h, find_thread_by_id) there
]

pub find_message-insert :
    (i id : Text) (new row : CommentMessageRow) (ms : List CommentMessageRow)
    → new.id ≡ map lower i
    → find_message i ms ≡ none
    → find_message id ms ≡ some row
    → find_message id (new ∷ ms) ≡ some row
unfolding find_message
find_message-insert i id new row ms e free there = elim (Bool-cases (uuid_eq new.id id)) [
  | inl h ↦
      let k = find_message-stored i id ms (same_stored i id (ap (λ x. uuid_eq x id) (sym e) ∙ h)) in
      absurd (ground (arith, free, there, k))
  | inr h ↦ rw (h, find_message) there
]

-- What no request changes of a thread.
pub record Frozen : Type 0 where
  pub document_id : Text
  pub created_by_user_id : Text
  pub anchor : CommentAnchor
  pub quoted_text : Text

abbrev pub frozen : CommentThreadRow → Frozen
frozen t = record {
  document_id = t.document_id;
  created_by_user_id = t.created_by_user_id;
  anchor = t.anchor;
  quoted_text = t.quoted_text;
}

-- The tables hold a thread with this id and these fields, and this message.
pub record Holds (thread_id : Text) (fields : Frozen) (message_id : Text)
    (message : CommentMessageRow) (db : CommentTables) : Type 0 where
  pub row : CommentThreadRow
  pub found : find_thread_by_id thread_id db.threads ≡ some row
  pub same_fields : frozen row ≡ fields
  pub kept : find_message message_id db.messages ≡ some message

pub find_thread-update :
    (matches : CommentThreadRow → Bool) (change : CommentThreadRow → CommentThreadRow) (id : Text)
    (row : CommentThreadRow) (ts : List CommentThreadRow)
    → ((t : CommentThreadRow) → ((change t).id ≡ t.id) × (frozen (change t) ≡ frozen t))
    → find_thread_by_id id ts ≡ some row
    → (row' : CommentThreadRow) × (find_thread_by_id id (update_threads matches change ts)
        ≡ some row')
      × (frozen row' ≡ frozen row)
unfolding find_thread_by_id update_threads
find_thread-update matches change id row [] keep h = absurd (ground (arith, h))
find_thread-update matches change id row (t ∷ ts) keep h = elim (Bool-cases (matches t)) [
  | inl m ↦ elim (Bool-cases (uuid_eq t.id id)) [
    | inl e ↦
        let k : some t ≡ some row = rw (e, find_thread_by_id) at h in
        (change t, rw (m, (keep t).0, e) refl, (keep t).1 ∙ ap frozen (some-inj k))
    | inr e ↦
        let (row', f, g) =
          find_thread-update matches change id row ts keep (rw (e, find_thread_by_id) at h) in
        (row', rw (m, (keep t).0, e) f, g)
  ]
  | inr m ↦ elim (Bool-cases (uuid_eq t.id id)) [
    | inl e ↦
        let k : some t ≡ some row = rw (e, find_thread_by_id) at h in
        (t, rw (m, e) refl, ap frozen (some-inj k))
    | inr e ↦
        let (row', f, g) =
          find_thread-update matches change id row ts keep (rw (e, find_thread_by_id) at h) in
        (row', rw (m, e) f, g)
  ]
]

pub status_cases : (s : CommentThreadStatus) → (s ≡ resolved) ⊎ (s ≡ open_)
status_cases open_ = inr refl
status_cases resolved = inl refl

pub outcome_cases {ℓ} :
    {A : Type ℓ} (o : Outcome A)
    → ((e : ServerError) × (o ≡ throws e)) ⊎ ((a : A) × (o ≡ returns a))
outcome_cases (throws e) = inl (e, refl)
outcome_cases (returns a) = inr (a, refl)
