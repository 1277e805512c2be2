-- ===== src/Outbox/Forward.antt =====
-- src/lib/sync/pending-store.ts, `transition`: the states of the rows before and after.
use concord_dev.Outbox.Rows.{get-id, get-put}
use concord_dev.Base.{
  ◌≡◌, inl, inr, refl, ap, Bool, false, ◌||◌, Option, none, some, List, [], ◌∷◌, arith,
  if◌then◌else◌, Option-cases,
}
use mathlib.Core.Option
use concord_dev.Outbox.{
  pending, sent, durably_acked, get, PendingOpRecord, key, transition_one, OpSendState,
  transition_all, advance,
}
use concord_dev.Base.Text.{Text, text_eq, text_eq_iff}

get-transition_one :
    (k j : Text) (state : OpSendState) (rows : List PendingOpRecord)
    → get k (transition_one j state rows)
      ≡ (if text_eq j k then Option.map (advance state) (get k rows) else get k rows)
unfolding transition_one
get-transition_one k j state rows = elim (Option-cases (get j rows)) [
  | inl e ↦ rw (e, transition_one) (ground (arith, text_eq_iff j k))
  | inr (r, e) ↦
      rw (e, transition_one)
        (ground
          (arith, text_eq_iff j k, get-id j rows r e, get-put k (record r { state = state }) rows))
]

-- Some id of the list has this key.
unfoldable pub names : Text → Text → List Text → Bool
names storage_id k [] = false
names storage_id k (id ∷ ids) = text_eq (key storage_id id) k || names storage_id k ids

advance-advance :
    (state st : OpSendState) (r : PendingOpRecord)
    → r.state ≡ st
    → advance state (advance state r) ≡ advance state r
advance-advance pending pending r e = ground arith
advance-advance pending sent r e = ground arith
advance-advance pending durably_acked r e = ground arith
advance-advance sent pending r e = ground arith
advance-advance sent sent r e = ground arith
advance-advance sent durably_acked r e = ground arith
advance-advance durably_acked pending r e = ground arith
advance-advance durably_acked sent r e = ground arith
advance-advance durably_acked durably_acked r e = ground arith

advance_twice :
    (state : OpSendState) (o : Option PendingOpRecord)
    → Option.map (advance state) (Option.map (advance state) o) ≡ Option.map (advance state) o
advance_twice state none = refl
advance_twice state (some r) = ap some (advance-advance state r.state r refl)

-- After a transition each row is what it was, except that a named row that was not yet
-- acknowledged has the new state; an acknowledged row never goes back.
pub get-transition_all :
    (storage_id k : Text) (state : OpSendState) (ids : List Text) (rows : List PendingOpRecord)
    → get k (transition_all storage_id state ids rows)
      ≡ (if names storage_id k ids then Option.map (advance state) (get k rows) else get k rows)
unfolding transition_all names
get-transition_all storage_id k state [] rows = refl
get-transition_all storage_id k state (id ∷ ids) rows = ground (
  arith,
  get-transition_all storage_id k state ids (transition_one (key storage_id id) state rows),
  get-transition_one k (key storage_id id) state rows,
  advance_twice state (get k rows),
)
