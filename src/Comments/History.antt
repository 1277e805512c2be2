-- ===== src/Comments/History.antt =====
-- src/server/services/comments.ts: histories of requests keep what was stored of a thread.
use concord_dev.Documents.Tables.{DocumentRow, DatabaseTables, find_by_id}
use concord_dev.Comments.Replies.{
  apply_reply, ReplyInput, apply_status, touch_thread, same_thread_status, update_threads,
  insert_reply,
}
use concord_dev.Comments.Inputs.{ThreadInput}
use concord_dev.Comments.Rows.{
  Frozen, Holds, frozen, find_thread-insert, status_cases, find_message-insert, find_thread-update,
}
use concord_dev.Base.Text.{Text}
use concord_dev.Comments.{
  CommentTables, CommentTables, apply_thread, CommentMessageRow, insert_thread, CommentThreadRow,
  CommentThreadStatus, find_thread_by_id, find_thread, find_message,
}
use concord_dev.Access.{Actor}
use concord_dev.Base.{
  ℕ, ◌≡◌, inl, inr, refl, ◌∙◌, Bool, some, List, [], ◌∷◌, Bool-cases, Option-cases,
}

-- The transactions of other requests. `others` is any that leaves the comments alone.
pub data Request : Type 0 where
  creates : Actor → Text → ThreadInput → ℕ → DocumentRow → CommentTables → Request
  replies : Actor → Text → Text → ReplyInput → ℕ → DocumentRow → List CommentMessageRow → Request
  sets : Actor → Text → Text → CommentThreadStatus → ℕ → DocumentRow → Request
  others : DatabaseTables → Request

unfoldable pub step : CommentTables → Request → CommentTables
step db (creates actor document_id input now document read) =
    (apply_thread actor document_id input now document read db).1
step db (replies actor document_id thread_id input now document read) =
    (apply_reply actor document_id thread_id input now document read db).1
step db (sets actor document_id thread_id status now document) =
    (apply_status actor document_id thread_id status now document db).1
step db (others base) = record db { base = base }

unfoldable pub run : CommentTables → List Request → CommentTables
run db [] = db
run db (r ∷ rs) = run (step db r) rs

module _ {thread_id : Text} {fields : Frozen} {message_id : Text}
    {message : CommentMessageRow} where
  insert-Holds :
      (actor : Actor) (document_id : Text) (input : ThreadInput) (now : ℕ) (document : DocumentRow)
      (db : CommentTables)
      → Holds thread_id fields message_id message db
      → Holds thread_id fields message_id message
          (insert_thread actor document_id input now document db).1
  unfolding insert_thread
  insert-Holds actor document_id input now document db h =
      elim (Option-cases (find_thread_by_id input.thread_id db.threads)) [
        | inr (taken, e) ↦ rw (e, insert_thread) h
        | inl e ↦ elim (Option-cases (find_by_id document_id db.base.documents)) [
          | inl f ↦ rw (e, f, insert_thread) h
          | inr (stored, f) ↦ elim (Option-cases (find_message input.message_id db.messages)) [
            | inr (taken, g) ↦ rw (e, f, g, insert_thread) h
            | inl g ↦
                rw (e, f, g, insert_thread)
                  (record {
                    row = h.row;
                    found =
                        find_thread-insert input.thread_id thread_id _ h.row db.threads refl e
                          h.found;
                    same_fields = h.same_fields;
                    kept =
                        find_message-insert input.message_id message_id _ message db.messages refl g
                          h.kept;
                  })
          ]
        ]
      ]

  thread-Holds :
      (actor : Actor) (document_id : Text) (input : ThreadInput) (now : ℕ) (document : DocumentRow)
      (read db : CommentTables)
      → Holds thread_id fields message_id message db
      → Holds thread_id fields message_id message
          (apply_thread actor document_id input now document read db).1
  unfolding apply_thread
  thread-Holds actor document_id input now document read db h =
      elim (Option-cases (find_thread document_id input.thread_id read.threads)) [
        | inl e ↦ rw (e, apply_thread) (insert-Holds actor document_id input now document db h)
        | inr (t, e) ↦ rw (e, apply_thread) h
      ]

  updated :
      (matches : CommentThreadRow → Bool) (change : CommentThreadRow → CommentThreadRow)
      (base : DatabaseTables) (ms : List CommentMessageRow) (db : CommentTables)
      → ((t : CommentThreadRow) → ((change t).id ≡ t.id) × (frozen (change t) ≡ frozen t))
      → Holds thread_id fields message_id message db
      → find_message message_id ms ≡ some message
      → Holds thread_id fields message_id message (record {
        base = base;
        threads = update_threads matches change db.threads;
        messages = ms;
      })
  updated matches change base ms db keep h found =
      let (row', f, g) =
        find_thread-update matches change thread_id h.row db.threads keep h.found in
      record { row = row'; found = f; same_fields = g ∙ h.same_fields; kept = found }

  insert_reply-Holds :
      (actor : Actor) (reply_to : Text) (input : ReplyInput) (now : ℕ) (document : DocumentRow)
      (db : CommentTables)
      → Holds thread_id fields message_id message db
      → Holds thread_id fields message_id message
          (insert_reply actor reply_to input now document db).1
  unfolding insert_reply touch_thread
  insert_reply-Holds actor reply_to input now document db h =
      elim (Option-cases (find_message input.message_id db.messages)) [
        | inr (m, f) ↦ rw (f, insert_reply) h
        | inl f ↦
            rw (f, insert_reply)
              (updated _ _ _ _ db (λ x. (refl, refl)) h
                (find_message-insert input.message_id message_id _ message db.messages refl f
                  h.kept))
      ]

  reply-Holds :
      (actor : Actor) (document_id reply_to : Text) (input : ReplyInput) (now : ℕ)
      (document : DocumentRow) (read : List CommentMessageRow) (db : CommentTables)
      → Holds thread_id fields message_id message db
      → Holds thread_id fields message_id message
          (apply_reply actor document_id reply_to input now document read db).1
  unfolding apply_reply
  reply-Holds actor document_id reply_to input now document read db h =
      elim (Option-cases (find_thread document_id reply_to db.threads)) [
        | inl e ↦ rw (e, apply_reply) h
        | inr (t, e) ↦ elim (Option-cases (find_message input.message_id read)) [
          | inr (m, f) ↦ rw (e, f, apply_reply) h
          | inl f ↦ elim (status_cases t.status) [
            | inl g ↦ rw (e, f, g, apply_reply) h
            | inr g ↦
                rw (e, f, g, apply_reply) (insert_reply-Holds actor t.id input now document db h)
          ]
        ]
      ]

  status-Holds :
      (actor : Actor) (document_id changed : Text) (status : CommentThreadStatus) (now : ℕ)
      (document : DocumentRow) (db : CommentTables)
      → Holds thread_id fields message_id message db
      → Holds thread_id fields message_id message
          (apply_status actor document_id changed status now document db).1
  unfolding apply_status
  status-Holds actor document_id changed status now document db h =
      elim (Option-cases (find_thread document_id changed db.threads)) [
        | inl e ↦ rw (e, apply_status) h
        | inr (t, e) ↦ elim (Bool-cases (same_thread_status t.status status)) [
          | inl f ↦ rw (e, f, apply_status) h
          | inr f ↦ rw (e, f, apply_status) (updated _ _ _ _ db (λ x. (refl, refl)) h h.kept)
        ]
      ]

  pub run-Holds :
      (rs : List Request) (db : CommentTables)
      → Holds thread_id fields message_id message db
      → Holds thread_id fields message_id message (run db rs)
  unfolding run step
  run-Holds [] db h = h
  run-Holds (creates a d i n doc read ∷ rs) db h =
      run-Holds rs _ (thread-Holds a d i n doc read db h)
  run-Holds (replies a d t i n doc read ∷ rs) db h =
      run-Holds rs _ (reply-Holds a d t i n doc read db h)
  run-Holds (sets a d t st n doc ∷ rs) db h = run-Holds rs _ (status-Holds a d t st n doc db h)
  run-Holds (others base ∷ rs) db h =
      run-Holds rs _
        (record { row = h.row; found = h.found; same_fields = h.same_fields; kept = h.kept })
