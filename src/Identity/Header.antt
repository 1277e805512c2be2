-- ===== src/Identity/Header.antt =====
-- src/lib/sync/identities.ts: `identityFromOpBytes`.
use concord_dev.Identity.{
  ParsedIdentity, identity_from_op_bytes, ParsedIdentity, positive, first_byte, parse_op_identity,
  format_op_identity, get_u64_le,
}
use concord_dev.Base.{ℕ, ◌<◌, ◌≡◌, inl, inr, ◌||◌, some, List, arith, ltb, length, Bool-cases, ◌==◌}
use concord_dev.Identity.Parsing.{parse_op_identity-format}

positive-some :
    (replica counter : ℕ) (i : ParsedIdentity)
    → positive replica counter ≡ some i
    → 0 < i.replica × 0 < i.counter
positive-some replica counter i e = elim (Bool-cases (replica == 0 || counter == 0)) [
  | inl z ↦ absurd (ground (arith, rw z at e))
  | inr p ↦
      let same : record { replica = replica; counter = counter } ≡ i = ground (arith, rw p at e) in
      rw (← same) (ground (arith, p))
]

pub identity-positive :
    (op : List ℕ) (i : ParsedIdentity)
    → identity_from_op_bytes op ≡ some i
    → 0 < i.replica × 0 < i.counter
unfolding identity_from_op_bytes
identity-positive op i e = elim (Bool-cases (ltb (length op) 18)) [
  | inl short ↦ absurd (ground (arith, rw short at e))
  | inr long ↦ elim (Bool-cases (first_byte op == 1)) [
    | inl v ↦ positive-some (get_u64_le op 2) (get_u64_le op 10) i (rw (long, v) at e)
    | inr v ↦ absurd (ground (arith, rw (long, v) at e))
  ]
]

-- The identity that is read from an operation's bytes is read back from its text.
pub parse_op_identity-bytes :
    (op : List ℕ) (i : ParsedIdentity)
    → identity_from_op_bytes op ≡ some i
    → parse_op_identity (format_op_identity i.replica i.counter) ≡ some i
parse_op_identity-bytes op i e =
    let p = identity-positive op i e in parse_op_identity-format i.replica i.counter p.0 p.1
