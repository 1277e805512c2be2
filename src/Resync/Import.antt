-- ===== src/Resync/Import.antt =====
-- src/lib/sync/snapshot-resync.ts, `performSnapshotResync`: the engine and the cursor behind a port.
-- A port's call answers and leaves a state also where it throws.
use concord_dev.Base.{ℕ, Bool, not, Option, none, some, List, length, if◌then◌else◌, ◌==◌}
use concord_dev.Base.Text.{Text, text_eq}
use concord_dev.Base.Decimal.{print}
use concord_dev.Resync.{
  passes, fails, SnapshotEnvelope, validate_server_snapshot, SnapshotResyncErrorCode,
}

pub record Port (S : Type 0) : Type 0 where
  pub get_cursor : S → Text
  -- none where it throws
  pub unacked_ops : S → Option (List (List ℕ)) × S
  -- false where it throws
  pub import_snapshot : List ℕ → S → Bool × S
  -- the duplicates, none where it throws
  pub apply_remote : List (List ℕ) → S → Option ℕ × S
  pub set_cursor : Text → S → Bool × S

pub record ResyncResult : Type 0 where
  pub boundary : ℕ
  pub reapply_count : ℕ
  pub duplicate_count : ℕ
  pub previous_cursor : Text

pub data ResyncOutcome : Type 0 where
  completes : ResyncResult → ResyncOutcome
  rejects : SnapshotResyncErrorCode → ResyncOutcome
  -- a call of the port threw
  breaks : ResyncOutcome

module _ {S : Type 0} (port : Port S) where
  -- The handler of an error behind the validation.
  unfoldable pub restore : Text → S → ResyncOutcome × S
  restore previous s =
      if text_eq (port.get_cursor s) previous
      then (breaks, s)
      else (breaks, (port.set_cursor previous s).1)

  unfoldable pub commit : ResyncResult → S → ResyncOutcome × S
  commit result s =
      let set = port.set_cursor (print result.boundary) s in
      if set.0 then (completes result, set.1) else restore result.previous_cursor set.1

  -- From the import on, with the captured operations.
  unfoldable pub import_and_reapply : List ℕ → ℕ → List (List ℕ) → Text → S → ResyncOutcome × S
  import_and_reapply inner coverage_seq pending previous s =
      let imported = port.import_snapshot inner s in
      let result : ℕ → ResyncResult = λ duplicates. record {
        boundary = coverage_seq;
        reapply_count = length pending;
        duplicate_count = duplicates;
        previous_cursor = previous;
      } in
      let applied = port.apply_remote pending imported.1 in
      if not imported.0
      then restore previous imported.1
      else if length pending == 0
      then commit (result 0) imported.1
      else elim applied.0 [
        | none ↦ restore previous applied.1
        | some duplicates ↦ commit (result duplicates) applied.1
      ]

  unfoldable pub perform_snapshot_resync :
      (List ℕ → Option Text) → Text → SnapshotEnvelope → S → ResyncOutcome × S
  perform_snapshot_resync sha256_hex expected_document_id envelope s =
      elim (validate_server_snapshot sha256_hex expected_document_id envelope) [
        | fails e ↦ (rejects e, s)
        | passes (inner, coverage_seq) ↦
            let captured = port.unacked_ops s in
            elim captured.0 [
              | none ↦ (breaks, captured.1)
              | some pending ↦
                  import_and_reapply inner coverage_seq pending (port.get_cursor s) captured.1
            ]
      ]
