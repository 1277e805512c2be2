-- ===== src/Resync/Tests.antt =====
-- A resync against a small port: the state is the cursor.
use concord_dev.Base.{ℕ, zero, suc, ◌≡◌, refl, true, Option, some, List, [], ◌∷◌}
use concord_dev.Base.Text.{Text, text_eq}
use concord_dev.Base.Decimal.{is_canonical, to_nat, value_from, all_digits}
use concord_dev.Identity.{le_value}
use concord_dev.Resync.{
  ◌>>=◌, SnapshotEnvelope, validate_server_snapshot, decode_base64, decode_chunks, pad_count,
  includes_pad, decode_snapshot_wrapper, parse_u64_decimal, format_uuid, hex, all_hex, passes,
}
use concord_dev.Resync.Import.{Port}
use concord_dev.Resync.Validation.{Agrees, validate_server_snapshot_sound}

abbrev repeated : ℕ → ℕ → Text → Text
repeated zero c s = s
repeated (suc n) c s = c ∷ repeated n c s

-- A wrapper of document 0, coverage 5, one operation and no inner payload.
abbrev wrapper_text : Text
wrapper_text =
    b'A'
    ∷ (b'Q'
        ∷ repeated 21 b'A' ((b'F' ∷ repeated 10 b'A' ((b'E' ∷ repeated 20 b'A' ((b'=' ∷ [])))))))

abbrev document : Text
document = repeated 8 b'0' (
    b'-'
    ∷ repeated 4 b'0'
        (b'-' ∷ repeated 4 b'0' (b'-' ∷ repeated 4 b'0' (b'-' ∷ repeated 12 b'0' []))))

abbrev digest : List ℕ → Option Text
digest bytes = some (repeated 64 b'a' [])

abbrev envelope : SnapshotEnvelope
envelope = record {
  snapshot_id = [];
  format_version = 1;
  coverage_seq = b'5' ∷ [];
  covered_op_count = b'1' ∷ [];
  checksum = repeated 64 b'A' [];
  payload_base64 = wrapper_text;
  state_digest = [];
  payload_size = b'4' ∷ b'1' ∷ [];
}

passes_all : validate_server_snapshot digest document envelope ≡ passes ([], 5)
unfolding validate_server_snapshot decode_base64 decode_chunks pad_count includes_pad
    decode_snapshot_wrapper ◌>>=◌ parse_u64_decimal is_canonical all_digits to_nat value_from
    le_value format_uuid hex text_eq all_hex
passes_all = refl

validate_server_snapshot_sound_example : Agrees digest document envelope [] 5
validate_server_snapshot_sound_example =
    validate_server_snapshot_sound digest document envelope [] 5 passes_all

abbrev port : Port Text
port = record {
  get_cursor = λ s. s;
  unacked_ops = λ s. (some ((7 ∷ []) ∷ []), s);
  import_snapshot = λ inner s. (true, s);
  apply_remote = λ ops s. (some 0, s);
  set_cursor = λ v s. (true, v);
}
