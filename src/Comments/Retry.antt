-- ===== src/Comments/Retry.antt =====
-- src/server/services/comments.ts, `createThread`: a retry of a thread that was stored.
use concord_dev.Documents.Inputs.{Given, Given}
use concord_dev.Documents.Roles.{IsCanonical, IsCanonical}
use concord_dev.Comments.Rows.{Frozen, Holds}
use concord_dev.Comments.Inputs.{
  ThreadInput, ThreadInput, ThreadInput, ThreadInput, ThreadInput, ThreadInput, ThreadInput,
}
use concord_dev.Comments.{apply_thread, apply_thread, CommentMessageRow, CommentTables, stored_uuid}
use concord_dev.Base.Text.{Text}
use concord_dev.Access.{Actor, Actor, Actor, Actor}
use concord_dev.Base.{ℕ}

abbrev fields_of : Actor → Text → ThreadInput → Frozen
fields_of actor document_id input = record {
  document_id = stored_uuid document_id;
  created_by_user_id = actor.user_id;
  anchor = input.anchor;
  quoted_text = input.quote;
}

abbrev message_of : Actor → ThreadInput → ℕ → CommentMessageRow
message_of actor input now = record {
  id = stored_uuid input.message_id;
  thread_id = stored_uuid input.thread_id;
  created_by_user_id = actor.user_id;
  body = input.body;
  created_at = now;
}

-- The tables hold what a thread's creation stores.
abbrev pub HoldsThread : Actor → Text → ThreadInput → ℕ → CommentTables → Type 0
HoldsThread actor document_id input now db =
    Holds input.thread_id (fields_of actor document_id input) input.message_id
      (message_of actor input now) db
