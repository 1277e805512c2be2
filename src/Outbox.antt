-- ===== src/Outbox.antt =====
-- src/lib/sync/pending-store.ts: the durable outbox of local operations. The object stores of
-- IndexedDB are lists of rows with a key; a write transaction applies as a whole or, where the
-- code throws inside it, not at all (`none`).
pub mod Rows
pub mod Forward
pub mod Order
pub mod Add
pub mod Clear
pub mod History
pub mod Resend
pub mod Counts
pub mod Legacy
mod Tests
use concord_dev.Base.{
  ℕ, zero, suc, ◌+◌, ◌*◌, ◌-◌, ◌^◌, ◌≤◌, ◌<◌, ◌≡◌, ◌≢◌, ◌↔◌, ◌⊎◌, inl, inr, refl, sym, ap, ◌∙◌,
  Bool, true, false, not, ◌&&◌, ◌||◌, Option, none, some, List, [], ◌∷◌, ◌++◌, arith, ltb, leb,
  length, if◌then◌else◌, Bool-cases, Option-cases, max, drop,
}
use concord_dev.Base.{◌==◌, map}
use concord_dev.Base.Text.{Text, text_eq, in_range, text_le}
use concord_dev.Base.Decimal.{all_digits, to_nat}

pub data OpSendState : Type 0 where
  pending sent durably_acked : OpSendState

pub record PendingOpRecord : Type 0 where
  pub id : Text
  pub op : List ℕ
  pub state : OpSendState
  pub seq : ℕ
  pub saved_at : ℕ

pub record MetaRow : Type 0 where
  pub document_id : Text
  pub counter : Text

-- The two object stores, and the module's `lastIssuedSequence`.
pub record Database : Type 0 where
  pub outbox : List PendingOpRecord
  pub meta : List MetaRow
  pub last_issued : ℕ

-- `store.get(key)`, `store.put(record)` and `store.delete(key)`. The rows stand in the order of their
-- keys, in which `getAll` gives them back.
unfoldable pub get : Text → List PendingOpRecord → Option PendingOpRecord
get key [] = none
get key (r ∷ rs) = if text_eq r.id key then some r else get key rs

unfoldable pub put : PendingOpRecord → List PendingOpRecord → List PendingOpRecord
put record_ [] = record_ ∷ []
put record_ (r ∷ rs) =
    if text_eq r.id record_.id
    then record_ ∷ rs
    else if text_le record_.id r.id
    then record_ ∷ r ∷ rs
    else r ∷ put record_ rs

unfoldable pub delete : Text → List PendingOpRecord → List PendingOpRecord
delete key [] = []
delete key (r ∷ rs) = if text_eq r.id key then delete key rs else r ∷ delete key rs

unfoldable pub get_meta : Text → List MetaRow → Option MetaRow
get_meta key [] = none
get_meta key (r ∷ rs) = if text_eq r.document_id key then some r else get_meta key rs

unfoldable pub put_meta : MetaRow → List MetaRow → List MetaRow
put_meta row [] = row ∷ []
put_meta row (r ∷ rs) =
    if text_eq r.document_id row.document_id then row ∷ rs else r ∷ put_meta row rs

-- `${this.storageId}:${id}`
abbrev pub key : Text → Text → Text
key storage_id id = storage_id ++ (b':' ∷ id)

abbrev pub next_sequence : ℕ → ℕ → ℕ
next_sequence now last_issued = max now (last_issued + 1)

-- `id.split(":").at(-1)`, behind the units read of the segment.
unfoldable pub last_segment_from : Text → Text → Text
last_segment_from segment [] = segment
last_segment_from segment (c ∷ s) =
    last_segment_from (if c == b':' then [] else segment ++ c ∷ []) s

unfoldable pub last_segment : Text → Text
unfolding last_segment_from
last_segment id = last_segment_from [] id

-- `BigInt(text)`: a text of digits; any other text that occurs throws.
abbrev pub big_int : Text → Option ℕ
big_int s = if all_digits s then some (to_nat s) else none

abbrev pub meta_counter : Option MetaRow → Text
meta_counter none = b'0' ∷ []
meta_counter (some row) = row.counter

unfoldable pub last_seen_counter : Text → Database → Text
last_seen_counter storage_id db = meta_counter (get_meta storage_id db.meta)

-- The meta row after an operation with this counter.
unfoldable pub note_counter : Text → Text → List MetaRow → Option (List MetaRow)
note_counter storage_id counter rows = elim (big_int counter) [
  | none ↦ none
  | some n ↦ elim (big_int (meta_counter (get_meta storage_id rows))) [
    | none ↦ none
    | some seen ↦ some (
        if ltb seen n
        then put_meta (record { document_id = storage_id; counter = counter }) rows
        else rows)
  ]
]

abbrev pub put_new : PendingOpRecord → List PendingOpRecord → List PendingOpRecord
put_new record_ rows = elim (get record_.id rows) [ none ↦ put record_ rows | some _ ↦ rows ]

-- `now` and `saved_at` are the two readings of the clock. The second part tells if the transaction
-- was written; the sequence number is spent in any case.
unfoldable pub add_pending : Text → Text → List ℕ → ℕ → ℕ → Database → Database × Bool
add_pending storage_id id op now saved_at db =
    let seq = next_sequence now db.last_issued in
    let row : PendingOpRecord = record {
      id = key storage_id id;
      op = op;
      state = pending;
      seq = seq;
      saved_at = saved_at;
    } in
    elim (note_counter storage_id (last_segment id) db.meta) [
      | none ↦ (record db { last_issued = seq }, false)
      | some meta ↦
          (record { outbox = put_new row db.outbox; meta = meta; last_issued = seq }, true)
    ]

abbrev pub same_state : OpSendState → OpSendState → Bool
same_state pending pending = true
same_state sent sent = true
same_state durably_acked durably_acked = true
same_state _ _ = false

-- `index.getAll(bound([state, prefix], [state, prefix + "\uffff"]))`
unfoldable pub get_all : OpSendState → Text → List PendingOpRecord → List PendingOpRecord
get_all state prefix [] = []
get_all state prefix (r ∷ rs) =
    if same_state r.state state && in_range prefix r.id
    then r ∷ get_all state prefix rs
    else get_all state prefix rs

-- `localeCompare` of two ids is a parameter: `locale_le a b` where it is not positive.
module _ (locale_le : Text → Text → Bool) where
  -- `a.seq - b.seq || a.id.localeCompare(b.id)` is not positive
  unfoldable pub comes_before : PendingOpRecord → PendingOpRecord → Bool
  comes_before a b = ltb a.seq b.seq || a.seq == b.seq && locale_le a.id b.id

  unfoldable pub insert_row : PendingOpRecord → List PendingOpRecord → List PendingOpRecord
  insert_row r [] = r ∷ []
  insert_row r (x ∷ xs) = if comes_before r x then r ∷ x ∷ xs else x ∷ insert_row r xs

  -- `sort`, which is stable
  unfoldable pub sort_rows : List PendingOpRecord → List PendingOpRecord
  sort_rows [] = []
  sort_rows (r ∷ rs) = insert_row r (sort_rows rs)

  unfoldable pub unacked_ops : Text → Database → List PendingOpRecord
  unacked_ops storage_id db =
      let prefix = storage_id ++ b':' ∷ [] in
      sort_rows (get_all pending prefix db.outbox ++ get_all sent prefix db.outbox)

unfoldable pub acked_ids : Text → Database → List Text
acked_ids storage_id db =
    let prefix = storage_id ++ b':' ∷ [] in
    map (λ (r : PendingOpRecord). drop (length prefix) r.id)
      (get_all durably_acked prefix db.outbox)

-- One id of `transition`.
abbrev pub advance : OpSendState → PendingOpRecord → PendingOpRecord
advance state r = elim r.state [ durably_acked ↦ r | _ ↦ record r { state = state } ]

unfoldable pub transition_one : Text → OpSendState → List PendingOpRecord → List PendingOpRecord
transition_one k state rows = elim (get k rows) [
  | none ↦ rows
  | some r ↦ elim r.state [ durably_acked ↦ rows | _ ↦ put (record r { state = state }) rows ]
]

unfoldable pub transition_all :
    Text → OpSendState → List Text → List PendingOpRecord → List PendingOpRecord
transition_all storage_id state [] rows = rows
transition_all storage_id state (id ∷ ids) rows =
    transition_all storage_id state ids (transition_one (key storage_id id) state rows)

unfoldable pub mark_sent : Text → List Text → Database → Database
mark_sent storage_id ids db = record db { outbox = transition_all storage_id sent ids db.outbox }

unfoldable pub mark_durably_acked : Text → List Text → Database → Database
mark_durably_acked storage_id ids db = record db {
  outbox = transition_all storage_id durably_acked ids db.outbox;
}

unfoldable pub contains : Text → List Text → Bool
contains t [] = false
contains t (x ∷ xs) = text_eq x t || contains t xs

-- The loop of `clearAcked`: the rows that are left, and the ids removed, in order.
unfoldable pub clear_loop :
    Text → List Text → List Text → List PendingOpRecord → List PendingOpRecord × List Text
clear_loop storage_id covered [] rows = (rows, [])
clear_loop storage_id covered (id ∷ ids) rows =
    let k = key storage_id id in
    let stay = clear_loop storage_id covered ids rows in
    let gone = clear_loop storage_id covered ids (delete k rows) in
    if not (contains id covered) then stay else elim (get k rows) [
      | none ↦ stay
      | some r ↦ elim r.state [ durably_acked ↦ (gone.0, id ∷ gone.1) | _ ↦ stay ]
    ]

-- `covered` is what `readCoveredOpIds` answers. The second part is what `clearCoveredOpIds` is
-- then called with.
unfoldable pub clear_acked : Text → List Text → List Text → Database → Database × List Text
clear_acked storage_id covered ids db =
    let (rows, removed) = clear_loop storage_id covered ids db.outbox in
    (record db { outbox = rows }, removed)

pub record StateCounts : Type 0 where
  pub pending : ℕ
  pub sent : ℕ
  pub durably_acked : ℕ

unfoldable pub state_counts : Text → Database → StateCounts
state_counts storage_id db =
    let prefix = storage_id ++ b':' ∷ [] in
    record {
      pending = length (get_all pending prefix db.outbox);
      sent = length (get_all sent prefix db.outbox);
      durably_acked = length (get_all durably_acked prefix db.outbox);
    }

-- `legacyOutboxRange`: the document's keys whose next segment starts with a digit from 1 on.
abbrev pub in_legacy_range : Text → Text → Bool
in_legacy_range document_id k =
    text_le (document_id ++ b':' ∷ b'1' ∷ []) k
    && text_le k (document_id ++ b':' ∷ b'9' ∷ 0xffff ∷ [])

unfoldable pub count_legacy : OpSendState → Text → List PendingOpRecord → ℕ
count_legacy state document_id [] = 0
count_legacy state document_id (r ∷ rs) =
    if same_state r.state state && in_legacy_range document_id r.id
    then suc (count_legacy state document_id rs)
    else count_legacy state document_id rs

unfoldable pub has_legacy_unacked : Text → Database → Bool
has_legacy_unacked document_id db =
    ltb 0 (count_legacy pending document_id db.outbox + count_legacy sent document_id db.outbox)
