-- ===== src/Briefing.antt =====
-- src/lib/sync/catchup-briefing.ts: what a catch-up brought, counted by origin replica.
pub mod Counts
mod Tests
use concord_dev.Base.{
  ℕ, zero, suc, ◌+◌, ◌*◌, ◌-◌, ◌^◌, ◌≤◌, ◌<◌, ◌≡◌, ◌≢◌, ◌↔◌, ◌⊎◌, inl, inr, refl, sym, ap, ◌∙◌,
  Bool, true, false, not, ◌&&◌, ◌||◌, Option, none, some, List, [], ◌∷◌, ◌++◌, arith, ltb, leb,
  length, if◌then◌else◌, Bool-cases, Option-cases,
}
use concord_dev.Base.Text.{Text, text_eq}
use concord_dev.Base.Decimal.{print}
use concord_dev.Identity.{identity_from_op_bytes, ParsedIdentity, big_int_value}

abbrev pub max_replica_summary : ℕ
max_replica_summary = 128

-- `replicas` is the Map, in the order of its insertions.
pub record CatchupOpCounts : Type 0 where
  pub operation_count : ℕ
  pub unattributed_operation_count : ℕ
  pub replicas : List (Text × ℕ)
  pub replica_list_truncated : Bool

abbrev pub empty_catchup_counts : CatchupOpCounts
empty_catchup_counts = record {
  operation_count = 0;
  unattributed_operation_count = 0;
  replicas = [];
  replica_list_truncated = false;
}

-- `replicas.has(id)`, and `replicas.set(id, replicas.get(id) + 1)`
unfoldable pub has : Text → List (Text × ℕ) → Bool
has id [] = false
has id ((k, n) ∷ rest) = text_eq k id || has id rest

unfoldable pub increment : Text → List (Text × ℕ) → List (Text × ℕ)
increment id [] = []
increment id ((k, n) ∷ rest) =
    if text_eq k id then (k, n + 1) ∷ rest else (k, n) ∷ increment id rest

-- The body of the loop.
unfoldable pub count_op : CatchupOpCounts → List ℕ → CatchupOpCounts
count_op counts op = elim (identity_from_op_bytes op) [
  | none ↦ record counts { unattributed_operation_count = counts.unattributed_operation_count + 1 }
  | some identity ↦
      let id = print (ParsedIdentity.replica identity) in
      if has id counts.replicas
      then record counts { replicas = increment id counts.replicas }
      else if ltb (length counts.replicas) max_replica_summary
      then record counts { replicas = counts.replicas ++ (id, 1) ∷ [] }
      else record counts { replica_list_truncated = true }
]

unfoldable pub count_loop : CatchupOpCounts → List (List ℕ) → CatchupOpCounts
count_loop counts [] = counts
count_loop counts (op ∷ ops) = count_loop (count_op counts op) ops

unfoldable pub count_catchup_ops : CatchupOpCounts → List (List ℕ) → CatchupOpCounts
count_catchup_ops counts ops =
    count_loop (record counts { operation_count = counts.operation_count + length ops }) ops

pub record CatchupBriefing : Type 0 where
  pub from_cursor : Text
  pub to_cursor : Text
  pub durable_operation_count : Option ℕ
  pub replicas : Option (List (Text × ℕ))
  pub unattributed_operation_count : Option ℕ
  pub replica_list_truncated : Option Bool
  pub local_unacked_operation_count : Option ℕ

unfoldable pub create_catchup_briefing :
    Text → Text → CatchupOpCounts → Option ℕ → Bool → Option CatchupBriefing
create_catchup_briefing from_cursor to_cursor counts unacked complete =
    elim (big_int_value to_cursor) [
      | none ↦ none
      | some to ↦ elim (big_int_value from_cursor) [
        | none ↦ none
        | some from ↦
            if leb to from
            then none
            else some (record {
              from_cursor = from_cursor;
              to_cursor = to_cursor;
              durable_operation_count = if complete then some counts.operation_count else none;
              replicas = if complete then some counts.replicas else none;
              unattributed_operation_count =
                  if complete then some counts.unattributed_operation_count else none;
              replica_list_truncated =
                  if complete then some counts.replica_list_truncated else none;
              local_unacked_operation_count = unacked;
            })
      ]
    ]
