-- ===== src/Comments/Replies.antt =====
-- src/server/services/comments.ts, `addMessage` and `setStatus`, which lock the thread's row.
use concord_dev.Documents.{get_document, get_document}
use concord_dev.Comments.Inputs.{uuid, uuid, ◌>>=◌, body_text}
use concord_dev.Documents.Tables.{
  uuid_eq, DocumentRow, DocumentRow, audited, document_comment_resolved, document_comment_replied,
}
use concord_dev.Access.{
  Actor, Actor, Actor, Actor, throws, conflict, Outcome, not_found, returns, validation, forbidden,
}
use concord_dev.Comments.{
  CommentThreadRow, Created, CommentThreadStatus, CommentTables, find_thread, open_, resolved,
  find_message, same_message, CommentMessageRow, may_comment, may_resolve, stored_uuid,
}
use concord_dev.Base.Text.{Text, Text, Text, Text, text_eq}
use concord_dev.Documents.Inputs.{Given, Given, text, parse_document_id}
use concord_dev.Base.{ℕ, Bool, true, false, ◌&&◌, Option, none, some, List, [], ◌∷◌, if◌then◌else◌}

pub record ReplyGiven : Type 0 where
  pub message_id : Given
  pub body : Given

pub record ReplyInput : Type 0 where
  pub message_id : Text
  pub body : Text

-- replySchema
unfoldable pub parse_reply : ReplyGiven → Option ReplyInput
parse_reply given = do
  message_id ← uuid given.message_id
  body ← body_text given.body
  some (record { message_id = message_id; body = body })

abbrev pub resolved_text : Text
resolved_text = b'r' ∷ b'e' ∷ b's' ∷ b'o' ∷ b'l' ∷ b'v' ∷ b'e' ∷ b'd' ∷ []

abbrev pub open_text : Text
open_text = b'o' ∷ b'p' ∷ b'e' ∷ b'n' ∷ []

-- statusSchema
unfoldable pub parse_status : Given → Option CommentThreadStatus
parse_status (text s) =
    if text_eq s open_text
    then some open_
    else if text_eq s resolved_text
    then some resolved
    else none
parse_status _ = none

-- `update … set … where …` of the threads
unfoldable pub update_threads :
    (CommentThreadRow → Bool)
    → (CommentThreadRow → CommentThreadRow)
    → List CommentThreadRow
    → List CommentThreadRow
update_threads matches change [] = []
update_threads matches change (t ∷ ts) =
    (if matches t then change t else t) ∷ update_threads matches change ts

unfoldable pub touch_thread : Text → ℕ → List CommentThreadRow → List CommentThreadRow
touch_thread id now threads =
    update_threads (λ t. uuid_eq t.id id) (λ t. record t { updated_at = now }) threads

abbrev pub message_exists : Created
message_exists = throws (conflict "Comment message ID already exists")

abbrev pub answer_reply : Actor → Text → ReplyInput → CommentMessageRow → Created
answer_reply actor thread_id input existing =
    if same_message thread_id actor.user_id input.body (some existing)
    then returns (existing.id, true)
    else message_exists

unfoldable pub insert_reply :
    Actor → Text → ReplyInput → ℕ → DocumentRow → CommentTables → Created × CommentTables
insert_reply actor thread_id input now document db =
    elim (find_message input.message_id db.messages) [
      | some raced ↦ (answer_reply actor thread_id input raced, db)
      | none ↦ (
        returns (input.message_id, false),
        record {
          base =
              audited actor.user_id document_comment_replied thread_id document.organization_id
                db.base;
          threads = touch_thread thread_id now db.threads;
          messages =
              record {
                id = stored_uuid input.message_id;
                thread_id = thread_id;
                created_by_user_id = actor.user_id;
                body = input.body;
                created_at = now;
              }
              ∷ db.messages;
        },
      )
    ]

-- The transaction of `addMessage`: it holds the thread's row, while messages may come in between its
-- look for the message and its insert.
unfoldable pub apply_reply :
    Actor
    → Text
    → Text
    → ReplyInput
    → ℕ
    → DocumentRow
    → List CommentMessageRow
    → CommentTables
    → Created × CommentTables
apply_reply actor document_id thread_id input now document read db =
    elim (find_thread document_id thread_id db.threads) [
      | none ↦ (throws (not_found "Comment thread not found"), db)
      | some thread ↦ elim (find_message input.message_id read) [
        | some existing ↦ (answer_reply actor (CommentThreadRow.id thread) input existing, db)
        | none ↦ elim (CommentThreadRow.status thread) [
          | resolved ↦ (throws (conflict "Comment thread is resolved"), db)
          | open_ ↦ insert_reply actor (CommentThreadRow.id thread) input now document db
        ]
      ]
    ]

-- `addMessage`: the tables at the access check, the messages read in the transaction, and its tables.
unfoldable pub add_message :
    Actor
    → Given
    → Given
    → ReplyGiven
    → ℕ
    → CommentTables
    → List CommentMessageRow
    → CommentTables
    → Created × CommentTables
add_message actor document_id thread_id given now checked read db =
    elim (parse_document_id document_id) [
      | throws e ↦ (throws e, db)
      | returns id ↦ elim (uuid thread_id) [
        | none ↦ (throws (validation "Invalid comment reply"), db)
        | some thread ↦ elim (parse_reply given) [
          | none ↦ (throws (validation "Invalid comment reply"), db)
          | some input ↦ elim (get_document actor document_id checked.base) [
            | throws e ↦ (throws e, db)
            | returns (document, role) ↦
                if may_comment role
                then apply_reply actor id thread input now document read db
                else (throws (forbidden "Comment access required"), db)
          ]
        ]
      ]
    ]

abbrev pub same_thread_status : CommentThreadStatus → CommentThreadStatus → Bool
same_thread_status open_ open_ = true
same_thread_status resolved resolved = true
same_thread_status _ _ = false

-- The transaction of `setStatus`.
unfoldable pub apply_status :
    Actor
    → Text
    → Text
    → CommentThreadStatus
    → ℕ
    → DocumentRow
    → CommentTables
    → Outcome CommentThreadStatus × CommentTables
apply_status actor document_id thread_id status now document db =
    elim (find_thread document_id thread_id db.threads) [
      | none ↦ (throws (not_found "Comment thread not found"), db)
      | some thread ↦
          if same_thread_status (CommentThreadRow.status thread) status
          then (returns status, db)
          else (
            returns status,
            record db {
              base =
                  audited actor.user_id document_comment_resolved (CommentThreadRow.id thread)
                    document.organization_id db.base;
              threads =
                  update_threads
                    (λ t.
                      uuid_eq t.document_id document_id
                      && uuid_eq t.id (CommentThreadRow.id thread))
                    (λ t. record t { status = status; updated_at = now }) db.threads;
            },
          )
    ]

unfoldable pub set_status :
    Actor
    → Given
    → Given
    → Given
    → ℕ
    → CommentTables
    → CommentTables
    → Outcome CommentThreadStatus × CommentTables
set_status actor document_id thread_id status now checked db =
    elim (parse_document_id document_id) [
      | throws e ↦ (throws e, db)
      | returns id ↦ elim (uuid thread_id) [
        | none ↦ (throws (validation "Invalid comment thread status"), db)
        | some thread ↦ elim (parse_status status) [
          | none ↦ (throws (validation "Invalid comment thread status"), db)
          | some next ↦ elim (get_document actor document_id checked.base) [
            | throws e ↦ (throws e, db)
            | returns (document, role) ↦
                if may_resolve role
                then apply_status actor id thread next now document db
                else (throws (forbidden "Only editors can resolve comments"), db)
          ]
        ]
      ]
    ]
