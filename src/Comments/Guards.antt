-- ===== src/Comments/Guards.antt =====
-- src/server/services/comments.ts: who may change the comments, and when.
use concord_dev.Documents.{get_document}
use concord_dev.Comments.Rows.{outcome_cases, outcome_cases, outcome_cases}
use concord_dev.Documents.Tables.{DocumentRow}
use concord_dev.Base.Text.{Text}
use concord_dev.Comments.Inputs.{ThreadGiven, ThreadGiven, uuid}
use concord_dev.Documents.Inputs.{Given, Given, Given, Given, Given, parse_document_id}
use concord_dev.Comments.Replies.{add_message, add_message, apply_reply, ReplyGiven}
use concord_dev.Comments.{CommentTables, CommentThreadRow, find_thread, resolved, CommentMessageRow}
use concord_dev.Access.{EffectiveRole, Actor, returns}
use concord_dev.Base.{ℕ, ◌≡◌, Bool, true, some, arith, List}

-- The actor had a role on the document that lets it do so, when the access was checked.
abbrev pub Allowed : (EffectiveRole → Bool) → Actor → Given → CommentTables → Type 0
Allowed may actor given_id checked =
    (access : DocumentRow × EffectiveRole) × (get_document actor given_id checked.base
      ≡ returns access)
    × (may access.1 ≡ true)

-- A reply to a resolved thread changes nothing, whoever makes it.
pub add_message-resolved :
    (actor : Actor) (given_id given_thread : Given) (document_id thread_id : Text)
    (given : ReplyGiven) (now : ℕ) (checked db : CommentTables) (messages : List CommentMessageRow)
    (t : CommentThreadRow)
    → parse_document_id given_id ≡ returns document_id
    → uuid given_thread ≡ some thread_id
    → find_thread document_id thread_id db.threads ≡ some t
    → t.status ≡ resolved
    → (add_message actor given_id given_thread given now checked messages db).1 ≡ db
unfolding add_message apply_reply
add_message-resolved actor given_id given_thread d tid given now checked db messages t pd pt found
      done =
    ground (arith, pd, pt, found, done)
