-- ===== src/Comments/Tests.antt =====
-- The comment service on a concrete database, and its theorems there.
use concord_dev.Comments.History.{run, run}
use concord_dev.Comments.Inputs.{ThreadGiven, ThreadInput, before_text, after_text}
use concord_dev.Documents.Inputs.{Given, text}
use concord_dev.Comments.{CommentTables, CommentTables, create_thread, create_thread}
use concord_dev.Documents.Tables.{DocumentRow, DocumentRow}
use concord_dev.Access.{Actor, EffectiveRole, owner}
use concord_dev.Base.Text.{Text, Text}
use concord_dev.Base.{ℕ, zero, suc, none, [], ◌∷◌}

abbrev digits : ℕ → Text → Text
digits zero s = s
digits (suc n) s = b'a' ∷ digits n s

abbrev some_uuid : Text
some_uuid = digits 8 (b'-' ∷ digits 4 (b'-' ∷ digits 4 (b'-' ∷ digits 4 (b'-' ∷ digits 12 []))))

abbrev alice : Actor
alice = record { user_id = b'1' ∷ []; organization = none }

abbrev document : DocumentRow
document = record {
  id = some_uuid;
  title = b'T' ∷ [];
  owner_user_id = alice.user_id;
  organization_id = none;
  initial_content = none;
  content = none;
  content_version = 1;
  metadata_version = 1;
  created_at = 0;
  updated_at = 0;
}

abbrev empty : CommentTables
empty = record {
  base = record { documents = document ∷ []; grants = []; audit = [] };
  threads = [];
  messages = [];
}

abbrev item : Given
item = text (b'7' ∷ b':' ∷ b'2' ∷ [])

abbrev given : ThreadGiven
given = record {
  thread_id = text some_uuid;
  message_id = text some_uuid;
  start_item_id = item;
  start_side = text before_text;
  end_item_id = item;
  end_side = text after_text;
  quote = text (b'q' ∷ []);
  body = text (b' ' ∷ b'h' ∷ b'i' ∷ []);
}

abbrev input : ThreadInput
input = record {
  thread_id = some_uuid;
  message_id = some_uuid;
  anchor = record {
    start_item_id = b'7' ∷ b':' ∷ b'2' ∷ [];
    start_side = before_text;
    end_item_id = b'7' ∷ b':' ∷ b'2' ∷ [];
    end_side = after_text;
  };
  quote = b'q' ∷ [];
  body = b'h' ∷ b'i' ∷ [];
}

abbrev stored : CommentTables
stored = (create_thread alice (text some_uuid) given 5 empty empty empty empty).1

abbrev access : DocumentRow × EffectiveRole
access = (document, owner)
