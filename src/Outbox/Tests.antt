-- ===== src/Outbox/Tests.antt =====
-- The outbox on concrete stores, and its theorems there.
use concord_dev.Outbox.{has_legacy_unacked, count_legacy}
use concord_dev.Outbox.Legacy.{has_legacy_unacked-add_pending}
use concord_dev.Outbox.Resend.{
  Resends, Resends, tab_storage_id, add_pending-Resends, add_pending-Resends_shared,
}
use concord_dev.Base.Decimal.{all_digits, all_digits, to_nat, value_from}
use concord_dev.Outbox.Forward.{names, names, get-transition_all}
use concord_dev.Outbox.Clear.{is_acked, names_covered, get-clear_loop}
use concord_dev.Outbox.Order.{unacked_ops-Has}
use concord_dev.Outbox.Rows.{Has}
use concord_dev.Outbox.History.{Write, marks_sent, acked_in, acks, clears, IsKept, run, run-IsKept}
use concord_dev.Base.{
  ℕ, ◌≡◌, ◌↔◌, ◌⊎◌, refl, true, ◌&&◌, none, List, [], ◌∷◌, ◌++◌, arith, if◌then◌else◌,
}
use concord_dev.Base.Text.{Text, text_eq, text_le, in_range}
use mathlib.Core.Option
use concord_dev.Outbox.{
  pending, sent, durably_acked, Database, get, PendingOpRecord, clear_loop, unacked_ops, contains,
  add_pending, key, transition_all, delete, note_counter, get_meta, last_segment, last_segment_from,
  next_sequence, advance,
}

abbrev doc : Text
doc = b'd' ∷ []

abbrev tail_id : Text
tail_id = b':' ∷ b'3' ∷ []

abbrev op_bytes : List ℕ
op_bytes = 1 ∷ 2 ∷ []

abbrev empty : Database
empty = record { outbox = []; meta = []; last_issued = 0 }

abbrev later : List Write
later =
    marks_sent doc ((b'7' ∷ tail_id) ∷ [])
    ∷ acks doc ((b'8' ∷ tail_id) ∷ [])
    ∷ clears doc ((b'7' ∷ tail_id) ∷ []) ((b'7' ∷ tail_id) ∷ [])
    ∷ []

add_pending-Resends_example :
    Resends text_le doc
      (key doc (b'7' ∷ tail_id))
      op_bytes
      (next_sequence 100 0)
      (run (add_pending doc (b'7' ∷ tail_id) op_bytes 100 100 empty).0 later)
unfolding get add_pending note_counter get_meta last_segment last_segment_from all_digits to_nat
    value_from acked_in names text_eq
add_pending-Resends_example =
    add_pending-Resends text_le doc tail_id b'7' op_bytes 100 100 empty later (omega arith) refl
      refl refl

add_pending-Resends_shared_example :
    Resends text_le doc
      (key (tab_storage_id doc (b'9' ∷ [])) (b'7' ∷ tail_id))
      op_bytes
      (next_sequence 100 0)
      (run
        (add_pending (tab_storage_id doc (b'9' ∷ [])) (b'7' ∷ tail_id) op_bytes 100 100 empty).0
        later)
unfolding get add_pending note_counter get_meta last_segment last_segment_from all_digits to_nat
    value_from acked_in names text_eq
add_pending-Resends_shared_example =
    add_pending-Resends_shared text_le doc (b'9' ∷ []) (b'7' ∷ tail_id) op_bytes 100 100 empty later
      refl refl refl

abbrev waiting : PendingOpRecord
waiting = record {
  id = key doc (b'7' ∷ tail_id);
  op = op_bytes;
  state = sent;
  seq = 100;
  saved_at = 100;
}

abbrev done : PendingOpRecord
done = record waiting { id = key doc (b'8' ∷ tail_id); state = durably_acked; seq = 90 }

abbrev two : Database
two = record { outbox = waiting ∷ done ∷ []; meta = []; last_issued = 100 }

run-IsKept_example : IsKept waiting.id waiting (run two later)
unfolding get acked_in names text_eq
run-IsKept_example =
    run-IsKept waiting.id waiting two later refl
      (record { row = waiting; found = refl; unacked = refl; same_op = refl; same_seq = refl })

get-transition_all_example :
    get done.id (transition_all doc pending ((b'8' ∷ tail_id) ∷ []) two.outbox) ≡ (
      if names doc done.id ((b'8' ∷ tail_id) ∷ [])
      then Option.map (advance pending) (get done.id two.outbox)
      else get done.id two.outbox)
get-transition_all_example =
    get-transition_all doc done.id pending ((b'8' ∷ tail_id) ∷ []) two.outbox

get-clear_loop_example :
    get done.id (clear_loop doc ((b'8' ∷ tail_id) ∷ []) ((b'8' ∷ tail_id) ∷ []) two.outbox).0 ≡ (
      if is_acked (get done.id two.outbox)
        && names_covered doc done.id ((b'8' ∷ tail_id) ∷ []) ((b'8' ∷ tail_id) ∷ [])
      then none
      else get done.id two.outbox)
get-clear_loop_example =
    get-clear_loop doc done.id ((b'8' ∷ tail_id) ∷ []) ((b'8' ∷ tail_id) ∷ []) two.outbox

cleared :
    (clear_loop doc ((b'8' ∷ tail_id) ∷ []) ((b'8' ∷ tail_id) ∷ []) two.outbox).0 ≡ waiting ∷ []
unfolding clear_loop contains get delete text_eq
cleared = refl

unacked_ops-Has_example : Has waiting (unacked_ops text_le doc two) ↔ (
    Has waiting two.outbox
    × in_range (doc ++ b':' ∷ []) waiting.id ≡ true
    × (waiting.state ≡ pending ⊎ waiting.state ≡ sent))
unacked_ops-Has_example = unacked_ops-Has text_le doc two waiting

has_legacy_unacked-add_pending_example :
    has_legacy_unacked doc
      (add_pending (doc ++ b':' ∷ b'u' ∷ b'1' ∷ []) (b'7' ∷ tail_id) op_bytes 100 100 two).0
    ≡ has_legacy_unacked doc two
has_legacy_unacked-add_pending_example =
    has_legacy_unacked-add_pending doc b'u' (b'1' ∷ []) (b'7' ∷ tail_id) op_bytes 100 100 two
      (omega arith)

legacy_waiting : has_legacy_unacked doc two ≡ true
unfolding has_legacy_unacked count_legacy text_le
legacy_waiting = refl
