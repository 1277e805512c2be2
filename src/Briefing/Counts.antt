-- ===== src/Briefing/Counts.antt =====
-- src/lib/sync/catchup-briefing.ts, `countCatchupOps`: the counts against each other.
use mathlib.Core.Path.{subst}
use concord_dev.Briefing.{
  CatchupOpCounts, increment, increment, CatchupOpCounts, count_op, has, max_replica_summary,
  count_loop, count_catchup_ops, empty_catchup_counts,
}
use concord_dev.Base.{
  ℕ, suc, ◌+◌, ◌≤◌, ◌<◌, ◌≡◌, inl, inr, refl, sym, ◌∙◌, true, false, List, [], ◌∷◌, ◌++◌, arith,
  ltb, length, Bool-cases, Option-cases, ltb→lt,
}
use concord_dev.Base.Text.{Text}
use concord_dev.Base.Decimal.{print}
use concord_dev.Identity.{identity_from_op_bytes, ParsedIdentity}

-- The operations that the list of replicas accounts for.
unfoldable pub total : List (Text × ℕ) → ℕ
total [] = 0
total ((k, n) ∷ rest) = n + total rest

abbrev pub attributed : CatchupOpCounts → ℕ
attributed c = total c.replicas + c.unattributed_operation_count

total-increment :
    (id : Text) (rs : List (Text × ℕ)) → has id rs ≡ true → total (increment id rs) ≡ total rs + 1
unfolding total increment has
total-increment id [] h = absurd (ground (arith, h))
total-increment id ((k, n) ∷ rest) h = ground (arith, h, total-increment id rest)

length-increment : (id : Text) (rs : List (Text × ℕ)) → length (increment id rs) ≡ length rs
unfolding increment
length-increment id [] = refl
length-increment id ((k, n) ∷ rest) = ground (arith, length-increment id rest)

total-append : (rs : List (Text × ℕ)) (id : Text) → total (rs ++ (id, 1) ∷ []) ≡ total rs + 1
unfolding total
total-append [] id = refl
total-append ((k, n) ∷ rest) id = omega (arith, total-append rest id)

length_after : (rs : List (Text × ℕ)) (p : Text × ℕ) → length (rs ++ p ∷ []) ≡ length rs + 1
length_after [] p = refl
length_after (r ∷ rest) p = omega (arith, length_after rest p)

-- The summary has at most 128 replicas; it and the unattributed count never say more operations
-- than came, and say all of them while the list is whole.
pub record AreSound (seen : ℕ) (c : CatchupOpCounts) : Type 0 where
  pub few : length c.replicas ≤ max_replica_summary
  pub within : attributed c ≤ seen
  pub all : c.replica_list_truncated ≡ false → attributed c ≡ seen

count_op-AreSound :
    (seen : ℕ) (c : CatchupOpCounts) (op : List ℕ)
    → AreSound seen c
    → AreSound (seen + 1) (count_op c op)
unfolding count_op
count_op-AreSound seen c op h = elim (Option-cases (identity_from_op_bytes op)) [
  | inl e ↦
      rw (e, count_op)
        (record {
          few = h.few;
          within = omega (arith, h.within);
          all = λ f. omega (arith, h.all f);
        })
  | inr (i, e) ↦
      let id = print (ParsedIdentity.replica i) in
      elim (Bool-cases (has id c.replicas)) [
        | inl known ↦
            let more = total-increment id c.replicas known in
            rw (e, known, count_op)
              (record {
                few = omega (arith, h.few, length-increment id c.replicas);
                within = omega (arith, h.within, more);
                all = λ f. omega (arith, h.all f, more);
              })
        | inr new ↦ elim (Bool-cases (ltb (length c.replicas) max_replica_summary)) [
          | inl room ↦
              let more = total-append c.replicas id in
              let below : length c.replicas < 128 = ltb→lt (length c.replicas) 128 room in
              rw (e, new, room, count_op)
                (record {
                  few = omega (arith, below, length_after c.replicas (id, 1));
                  within = omega (arith, h.within, more);
                  all = λ f. omega (arith, h.all f, more);
                })
          | inr full ↦
              rw (e, new, full, count_op)
                (record {
                  few = h.few;
                  within = omega (arith, h.within);
                  all = λ f. absurd (ground (arith, f));
                })
        ]
      ]
]

count_loop-AreSound :
    (seen : ℕ) (c : CatchupOpCounts) (ops : List (List ℕ))
    → AreSound seen c
    → AreSound (seen + length ops) (count_loop c ops)
unfolding count_loop
count_loop-AreSound seen c [] h = let e : seen + 0 ≡ seen = omega arith in rw e h
count_loop-AreSound seen c (op ∷ ops) h =
    let e : seen + suc (length ops) ≡ seen + 1 + length ops = omega arith in
    rw e (count_loop-AreSound (seen + 1) (count_op c op) ops (count_op-AreSound seen c op h))

count_op-operation_count :
    (c : CatchupOpCounts) (op : List ℕ) → (count_op c op).operation_count ≡ c.operation_count
unfolding count_op
count_op-operation_count c op = elim (Option-cases (identity_from_op_bytes op)) [
  | inl e ↦ rw (e, count_op) refl
  | inr (i, e) ↦ rw (e, count_op) (ground arith)
]

count_loop-operation_count :
    (c : CatchupOpCounts) (ops : List (List ℕ))
    → (count_loop c ops).operation_count ≡ c.operation_count
unfolding count_loop
count_loop-operation_count c [] = refl
count_loop-operation_count c (op ∷ ops) =
    count_loop-operation_count (count_op c op) ops ∙ count_op-operation_count c op

-- The counts of a catch-up whose batches were counted one after another.
unfoldable pub count_batches : List (List (List ℕ)) → CatchupOpCounts → CatchupOpCounts
count_batches [] c = c
count_batches (ops ∷ batches) c = count_batches batches (count_catchup_ops c ops)

count_catchup_ops-AreSound :
    (c : CatchupOpCounts) (ops : List (List ℕ))
    → AreSound c.operation_count c
    → AreSound (count_catchup_ops c ops).operation_count (count_catchup_ops c ops)
unfolding count_catchup_ops
count_catchup_ops-AreSound c ops h =
    let c' : CatchupOpCounts = record c { operation_count = c.operation_count + length ops } in
    subst (λ n. AreSound n (count_loop c' ops)) (sym (count_loop-operation_count c' ops))
      (count_loop-AreSound c.operation_count c' ops
        (record { few = h.few; within = h.within; all = h.all }))

from-AreSound :
    (batches : List (List (List ℕ))) (c : CatchupOpCounts)
    → AreSound c.operation_count c
    → AreSound (count_batches batches c).operation_count (count_batches batches c)
unfolding count_batches
from-AreSound [] c h = h
from-AreSound (ops ∷ batches) c h =
    from-AreSound batches (count_catchup_ops c ops) (count_catchup_ops-AreSound c ops h)

-- After any batches of a catch-up the summary has at most 128 replicas, and the operations that it and
-- the unattributed count tell of are at most the operations counted, and all of them while the list is
-- not truncated.
pub count_batches-AreSound :
    (batches : List (List (List ℕ)))
    → AreSound
        (count_batches batches empty_catchup_counts).operation_count
        (count_batches batches empty_catchup_counts)
unfolding total
count_batches-AreSound batches =
    from-AreSound batches empty_catchup_counts
      (record { few = omega arith; within = omega arith; all = λ f. omega arith })
