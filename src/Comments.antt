-- ===== src/Comments.antt =====
-- src/server/services/comments.ts over src/server/repositories/comments.ts: threads and messages of
-- comments. A service takes the tables at each time that it reads them, since other requests may run
-- in between; a transaction that throws leaves the tables as they were.
pub mod Inputs
pub mod Replies
pub mod Rows
pub mod History
pub mod Retry
pub mod Guards
mod Tests
use concord_dev.Comments.Inputs.{
  CommentAnchor, CommentAnchor, ThreadInput, ThreadInput, ThreadInput, ThreadInput, ThreadGiven,
  parse_thread,
}
use concord_dev.Documents.{get_document}
use concord_dev.Identity.{split_colon}
use concord_dev.Base.Decimal.{is_canonical, to_nat}
use concord_dev.Access.{
  viewer, EffectiveRole, EffectiveRole, Actor, Outcome, throws, Actor, Actor, Actor, Actor,
  conflict, returns, owner, validation, editor, other_error, commenter, forbidden,
}
use concord_dev.Documents.Inputs.{
  Given, Given, Given, Given, Given, Given, parse_document_id, text, is_uuid,
}
use concord_dev.Documents.Tables.{
  DatabaseTables, uuid_eq, DocumentRow, find_by_id, audited, document_comment_created,
}
use concord_dev.Base.Text.{
  Text, Text, Text, Text, Text, Text, Text, Text, Text, Text, Text, text_eq, Text, Text, Text, trim,
  lower,
}
use concord_dev.Base.{
  ℕ, zero, suc, ◌+◌, ◌*◌, ◌-◌, ◌^◌, ◌≤◌, ◌<◌, ◌≡◌, ◌≢◌, ◌↔◌, ◌⊎◌, inl, inr, refl, sym, ap, ◌∙◌,
  Bool, true, false, not, ◌&&◌, ◌||◌, Option, none, some, List, [], ◌∷◌, ◌++◌, arith, ltb, leb,
  length, if◌then◌else◌, Bool-cases, Option-cases, map,
}

pub data CommentThreadStatus : Type 0 where
  open_ resolved : CommentThreadStatus

pub record CommentThreadRow : Type 0 where
  pub id : Text
  pub document_id : Text
  pub created_by_user_id : Text
  pub anchor : CommentAnchor
  pub quoted_text : Text
  pub status : CommentThreadStatus
  pub created_at : ℕ
  pub updated_at : ℕ

pub record CommentMessageRow : Type 0 where
  pub id : Text
  pub thread_id : Text
  pub created_by_user_id : Text
  pub body : Text
  pub created_at : ℕ

pub record CommentTables : Type 0 where
  pub base : DatabaseTables
  pub threads : List CommentThreadRow
  pub messages : List CommentMessageRow

unfoldable pub find_thread_by_id : Text → List CommentThreadRow → Option CommentThreadRow
find_thread_by_id id [] = none
find_thread_by_id id (t ∷ ts) = if uuid_eq t.id id then some t else find_thread_by_id id ts

-- `findThread` and `findThreadForUpdate`
unfoldable pub find_thread : Text → Text → List CommentThreadRow → Option CommentThreadRow
find_thread document_id id [] = none
find_thread document_id id (t ∷ ts) =
    if uuid_eq t.document_id document_id && uuid_eq t.id id
    then some t
    else find_thread document_id id ts

unfoldable pub find_message : Text → List CommentMessageRow → Option CommentMessageRow
find_message id [] = none
find_message id (m ∷ ms) = if uuid_eq m.id id then some m else find_message id ms

abbrev pub may_comment : EffectiveRole → Bool
may_comment owner = true
may_comment editor = true
may_comment commenter = true
may_comment viewer = false

abbrev pub may_resolve : EffectiveRole → Bool
may_resolve owner = true
may_resolve editor = true
may_resolve _ = false

unfoldable pub same_anchor : CommentAnchor → CommentAnchor → Bool
same_anchor a b =
    text_eq a.start_item_id b.start_item_id
    && (text_eq a.start_side b.start_side
        && (text_eq a.end_item_id b.end_item_id && text_eq a.end_side b.end_side))

abbrev pub same_message : Text → Text → Text → Option CommentMessageRow → Bool
same_message thread_id user_id body none = false
same_message thread_id user_id body (some m) =
    text_eq m.thread_id thread_id && (text_eq m.created_by_user_id user_id && text_eq m.body body)

-- The comparison of a stored thread with the bytes of a retry.
unfoldable pub same_thread :
    Actor → ThreadInput → CommentThreadRow → Option CommentMessageRow → Bool
same_thread actor input thread message =
    text_eq thread.created_by_user_id actor.user_id
    && (same_anchor thread.anchor input.anchor
        && (text_eq thread.quoted_text input.quote
            && same_message input.thread_id actor.user_id input.body message))

-- A uuid column holds its value in lower case.
abbrev pub stored_uuid : Text → Text
stored_uuid id = map lower id

-- The id that is answered, and `duplicate`.
abbrev pub Created : Type 0
Created = Outcome (Text × Bool)

abbrev pub id_exists : Created
id_exists = throws (conflict "Comment ID already exists")

-- Where a thread with the id is there: a retry, or another thread.
abbrev pub answer_existing :
    Actor → ThreadInput → Option CommentThreadRow → List CommentMessageRow → Created
answer_existing actor input none messages = id_exists
answer_existing actor input (some thread) messages =
    if same_thread actor input thread (find_message input.message_id messages)
    then returns (input.thread_id, true)
    else id_exists

-- The two inserts. A message id that is taken, or a document that is gone, breaks a constraint.
unfoldable pub insert_thread :
    Actor → Text → ThreadInput → ℕ → DocumentRow → CommentTables → Created × CommentTables
insert_thread actor document_id input now document db =
    elim (find_thread_by_id input.thread_id db.threads) [
      | some taken ↦ (
        answer_existing actor input (find_thread document_id input.thread_id db.threads)
            db.messages,
        db,
      )
      | none ↦ elim (find_by_id document_id db.base.documents) [
        | none ↦ (throws other_error, db)
        | some stored ↦ elim (find_message input.message_id db.messages) [
          | some taken ↦ (throws other_error, db)
          | none ↦ (
            returns (input.thread_id, false),
            record {
              base =
                  audited actor.user_id document_comment_created input.thread_id
                    document.organization_id db.base;
              threads =
                  record {
                    id = stored_uuid input.thread_id;
                    document_id = stored_uuid document_id;
                    created_by_user_id = actor.user_id;
                    anchor = input.anchor;
                    quoted_text = input.quote;
                    status = open_;
                    created_at = now;
                    updated_at = now;
                  }
                  ∷ db.threads;
              messages =
                  record {
                    id = stored_uuid input.message_id;
                    thread_id = stored_uuid input.thread_id;
                    created_by_user_id = actor.user_id;
                    body = input.body;
                    created_at = now;
                  }
                  ∷ db.messages;
            },
          )
        ]
      ]
    ]

-- The transaction: `read` is what it finds first, `db` what its inserts meet.
unfoldable pub apply_thread :
    Actor
    → Text
    → ThreadInput
    → ℕ
    → DocumentRow
    → CommentTables
    → CommentTables
    → Created × CommentTables
apply_thread actor document_id input now document read db =
    elim (find_thread document_id input.thread_id read.threads) [
      | some existing ↦ (answer_existing actor input (some existing) read.messages, db)
      | none ↦ insert_thread actor document_id input now document db
    ]

abbrev pub is_elsewhere : Text → Option CommentThreadRow → Bool
is_elsewhere document_id none = false
is_elsewhere document_id (some t) = not (text_eq t.document_id document_id)

-- `createThread`: the tables at the look for the id, at the access check, and in the transaction.
unfoldable pub create_thread :
    Actor
    → Given
    → ThreadGiven
    → ℕ
    → CommentTables
    → CommentTables
    → CommentTables
    → CommentTables
    → Created × CommentTables
create_thread actor document_id given now seen checked read db =
    elim (parse_document_id document_id) [
      | throws e ↦ (throws e, db)
      | returns id ↦ elim (parse_thread given) [
        | none ↦ (throws (validation "Invalid comment thread"), db)
        | some input ↦
            if is_elsewhere id (find_thread_by_id input.thread_id seen.threads)
            then (id_exists, db)
            else elim (get_document actor document_id checked.base) [
              | throws e ↦ (throws e, db)
              | returns (document, role) ↦
                  if may_comment role
                  then apply_thread actor id input now document read db
                  else (throws (forbidden "Comment access required"), db)
            ]
      ]
    ]
