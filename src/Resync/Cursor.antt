-- ===== src/Resync/Cursor.antt =====
-- src/lib/sync/snapshot-resync.ts, `performSnapshotResync`: the cursor and the base after it.
use concord_dev.Resync.{Checked, SnapshotResyncErrorCode, fails, passes}
use concord_dev.Base.{ℕ, ◌≡◌, inl, inr, refl, true, false, List, ◌⊎◌}
use concord_dev.Base.Text.{Text}
use concord_dev.Base.Decimal.{print}
use concord_dev.Resync.Import.{Port, ResyncResult, ResyncOutcome, completes, rejects, breaks}

-- A port whose engine leaves the cursor alone, and whose `setCursor` sets it or throws with no effect.
pub record IsLawful {S : Type 0} (port : Port S) : Type 0 where
  pub keeps_unacked : (s : S) → port.get_cursor (port.unacked_ops s).1 ≡ port.get_cursor s
  pub keeps_import :
      (inner : List ℕ) (s : S)
      → port.get_cursor (port.import_snapshot inner s).1 ≡ port.get_cursor s
  pub keeps_apply :
      (ops : List (List ℕ)) (s : S)
      → port.get_cursor (port.apply_remote ops s).1 ≡ port.get_cursor s
  pub sets :
      (v : Text) (s : S)
      → (port.set_cursor v s).0 ≡ true
      → port.get_cursor (port.set_cursor v s).1 ≡ v
  pub refuses :
      (v : Text) (s : S)
      → (port.set_cursor v s).0 ≡ false
      → port.get_cursor (port.set_cursor v s).1 ≡ port.get_cursor s

-- The cursor is the boundary of a resync that completes, and else what it was.
abbrev pub CursorFits : ResyncOutcome → Text → Text → Type 0
CursorFits (completes r) before after = after ≡ print (ResyncResult.boundary r)
CursorFits (rejects e) before after = after ≡ before
CursorFits breaks before after = after ≡ before

pub checked_cases {ℓ} :
    {A : Type ℓ} (m : Checked A)
    → ((e : SnapshotResyncErrorCode) × (m ≡ fails e)) ⊎ ((a : A) × (m ≡ passes a))
checked_cases (fails e) = inl (e, refl)
checked_cases (passes a) = inr (a, refl)
