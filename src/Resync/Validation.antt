-- ===== src/Resync/Validation.antt =====
-- src/lib/sync/snapshot-resync.ts, `validateServerSnapshot`: what a snapshot that passes agrees with.
use concord_dev.Base.{
  ℕ, ◌≡◌, inl, inr, refl, ap, ◌∙◌, Bool, true, false, Option, none, some, List, arith, length,
  if◌then◌else◌, Option-cases, ◌==◌,
}
use concord_dev.Base.{map}
use concord_dev.Base.Text.{Text, text_eq, text_eq_iff, lower}
use concord_dev.Resync.{
  Checked, passes, fails, ◌>>=◌, SnapshotEnvelope, DecodedSnapshotWrapper, validate_server_snapshot,
  decode_base64, decode_snapshot_wrapper, parse_u64_decimal, expect_u64, require,
  SnapshotResyncErrorCode, digest_unavailable, checksum_mismatch, size_mismatch, coverage_mismatch,
  unsupported_format, document_mismatch,
}

-- A chain that passes passes at its first step, and from there on.
bind-passes {ℓ κ} :
    {A : Type ℓ} {B : Type κ} {m : Checked A} {f : A → Checked B} {b : B}
    → (m >>= f) ≡ passes b
    → (a : A) × (m ≡ passes a) × (f a ≡ passes b)
unfolding ◌>>=◌
bind-passes {m = passes a} h = (a, refl, h)
bind-passes {m = fails e} h = absurd (ground (arith, h))

require-passes :
    (b : Bool) (e : SnapshotResyncErrorCode) (u : Unit {0}) → require b e ≡ passes u → b ≡ true
require-passes true e u h = refl
require-passes false e u h = absurd (ground (arith, h))

digest-passes :
    (digest : Option Text) (declared : Text) (inner given : List ℕ) (seq given_seq : ℕ)
    → (elim digest as (λ d. Checked (List ℕ × ℕ)) [
      | none ↦ fails digest_unavailable
      | some computed ↦
          if text_eq computed declared then passes (inner, seq) else fails checksum_mismatch
    ])
      ≡ passes (given, given_seq)
    → (digest ≡ some declared) × (given ≡ inner) × (given_seq ≡ seq)
digest-passes none declared inner given seq given_seq h = absurd (ground (arith, h))
digest-passes (some computed) declared inner given seq given_seq h =
    ground (arith, h, text_eq_iff computed declared)

expect_u64-passes : (t : Text) (n : ℕ) → expect_u64 t ≡ passes n → parse_u64_decimal t ≡ some n
expect_u64-passes t n h = elim (Option-cases (parse_u64_decimal t)) [
  | inl e ↦ absurd (ground (arith, h, e))
  | inr (m, e) ↦ ground (arith, h, e)
]

-- The envelope, its payload and the wrapper in it tell of one snapshot, of this document, and the
-- checksum is that of all the bytes.
pub record Agrees (sha256_hex : List ℕ → Option Text) (expected_document_id : Text)
    (envelope : SnapshotEnvelope) (inner : List ℕ) (coverage_seq : ℕ) : Type 0 where
  pub bytes : List ℕ
  pub wrapper : DecodedSnapshotWrapper
  pub supported : envelope.format_version ≡ 1
  pub decoded : decode_base64 envelope.payload_base64 ≡ passes bytes
  pub size : parse_u64_decimal envelope.payload_size ≡ some (length bytes)
  pub unwrapped : decode_snapshot_wrapper bytes ≡ passes wrapper
  pub document : wrapper.document_id ≡ map lower expected_document_id
  pub coverage : parse_u64_decimal envelope.coverage_seq ≡ some wrapper.coverage_seq
  pub op_count : parse_u64_decimal envelope.covered_op_count ≡ some wrapper.covered_op_count
  pub digest : sha256_hex bytes ≡ some (map lower envelope.checksum)
  pub same_inner : inner ≡ wrapper.inner
  pub same_coverage : coverage_seq ≡ wrapper.coverage_seq

-- A snapshot that passes the validation has its supported version, decodes, has the declared size,
-- coverage and operation count, is of the expected document, and hashes to the declared checksum; what
-- is handed on is the inner payload and the coverage of its wrapper.
pub validate_server_snapshot_sound :
    (sha256_hex : List ℕ → Option Text) (expected_document_id : Text) (envelope : SnapshotEnvelope)
    (inner : List ℕ) (coverage_seq : ℕ)
    → validate_server_snapshot sha256_hex expected_document_id envelope
      ≡ passes (inner, coverage_seq)
    → Agrees sha256_hex expected_document_id envelope inner coverage_seq
unfolding validate_server_snapshot
validate_server_snapshot_sound sha256_hex expected_document_id envelope inner coverage_seq h =
    let (u0, s0, h0) = bind-passes h in
    let (bytes, s1, h1) = bind-passes h0 in
    let (size, s2, h2) = bind-passes h1 in
    let (u3, s3, h3) = bind-passes h2 in
    let (wrapper, s4, h4) = bind-passes h3 in
    let (u5, s5, h5) = bind-passes h4 in
    let (coverage, s6, h6) = bind-passes h5 in
    let (u7, s7, h7) = bind-passes h6 in
    let (count, s8, h8) = bind-passes h7 in
    let (u9, s9, h9) = bind-passes h8 in
    let (u10, s10, h10) = bind-passes h9 in
    let last =
      digest-passes (sha256_hex bytes) (map lower envelope.checksum)
        (DecodedSnapshotWrapper.inner wrapper) inner (DecodedSnapshotWrapper.coverage_seq wrapper)
        coverage_seq h10 in
    let sized = require-passes (size == length bytes) size_mismatch u3 s3 in
    let covered =
      require-passes (coverage == DecodedSnapshotWrapper.coverage_seq wrapper) coverage_mismatch u7
        s7 in
    let counted =
      require-passes (count == DecodedSnapshotWrapper.covered_op_count wrapper) coverage_mismatch u9
        s9 in
    record {
      bytes = bytes;
      wrapper = wrapper;
      supported =
          ground (arith, require-passes (envelope.format_version == 1) unsupported_format u0 s0);
      decoded = s1;
      size = expect_u64-passes envelope.payload_size size s2 ∙ ap some (ground (arith, sized));
      unwrapped = s4;
      document =
          (text_eq_iff (DecodedSnapshotWrapper.document_id wrapper)
              (map lower expected_document_id)).0
            (require-passes
              (text_eq (DecodedSnapshotWrapper.document_id wrapper)
                (map lower expected_document_id))
              document_mismatch u5 s5);
      coverage =
          expect_u64-passes envelope.coverage_seq coverage s6 ∙ ap some (ground (arith, covered));
      op_count =
          expect_u64-passes envelope.covered_op_count count s8 ∙ ap some (ground (arith, counted));
      digest = last.0;
      same_inner = last.1;
      same_coverage = last.2;
    }
