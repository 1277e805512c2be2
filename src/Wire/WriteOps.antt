-- ===== src/Wire/WriteOps.antt =====
-- The decoder's loop on what the encoder's loop wrote.
use mathlib.Core.List.{append_assoc, append-nil}
use concord_dev.Base.{
  ℕ, suc, ◌+◌, ◌≤◌, ◌<◌, ◌≡◌, refl, sym, ap, ◌∙◌, List, [], ◌∷◌, ◌++◌, arith, length, length-append,
  take, drop-length-append, take-length-append,
}
use concord_dev.Wire.{
  ok, slice, get_uint, read_loop, payload_bytes, payload_from, write_ops, max_op_bytes,
}
use concord_dev.Wire.Bytes.{be_bytes, be_value, be_value-bytes, length-be_bytes, All}

-- The operations that the decoder takes.
abbrev pub OpFits : List ℕ → Type 0
OpFits op = (0 < length op) × (length op ≤ max_op_bytes)

pub slice-append :
    (pre mid post : List ℕ) (offset n : ℕ)
    → offset ≡ length pre
    → n ≡ length mid
    → slice (pre ++ (mid ++ post)) offset n ≡ mid
slice-append pre mid post offset n p q =
    ap (λ (t : ℕ). slice (pre ++ (mid ++ post)) t n) p
    ∙ ap (take n) (drop-length-append pre (mid ++ post))
    ∙ ap (λ (t : ℕ). take t (mid ++ post)) q
    ∙ take-length-append mid post

pub read_loop_step :
    (bytes : List ℕ) (total left offset : ℕ) (ops : List (List ℕ)) (op : List ℕ)
    → get_uint bytes offset 4 ≡ length op
    → slice bytes (offset + 4) (length op) ≡ op
    → OpFits op
    → offset + 4 + length op ≤ total
    → read_loop bytes total (suc left) offset ops
      ≡ read_loop bytes total left (offset + 4 + length op) (ops ++ op ∷ [])
unfolding read_loop
read_loop_step bytes total left offset ops op p q fits room = rw (p, q) (ground arith)

read_loop_done :
    (bytes : List ℕ) (total offset : ℕ) (ops : List (List ℕ))
    → offset ≡ total
    → read_loop bytes total 0 offset ops ≡ ok ops
unfolding read_loop
read_loop_done bytes total offset ops e = ground arith

-- The operation that stands behind `pre` is read in one round.
read_loop_op :
    (pre op post : List ℕ) (total left offset : ℕ) (out : List (List ℕ))
    → OpFits op
    → offset ≡ length pre
    → offset + 4 + length op ≤ total
    → read_loop (pre ++ (be_bytes 4 (length op) ++ (op ++ post))) total (suc left) offset out
      ≡ read_loop
          (pre ++ (be_bytes 4 (length op) ++ (op ++ post)))
          total
          left
          (offset + 4 + length op)
          (out ++ op ∷ [])
read_loop_op pre op post total left offset out fits e room =
    read_loop_step _ total left offset out op header body fits room
  where
    header : get_uint (pre ++ (be_bytes 4 (length op) ++ (op ++ post))) offset 4 ≡ length op
    header =
        ap be_value (
          slice-append pre (be_bytes 4 (length op)) (op ++ post) offset 4 e
            (sym (length-be_bytes 4 (length op))))
        ∙ be_value-bytes 4 (length op) (omega arith)

    body : slice (pre ++ (be_bytes 4 (length op) ++ (op ++ post))) (offset + 4) (length op) ≡ op
    body =
        ap (λ (t : List ℕ). slice t (offset + 4) (length op))
          (sym (append_assoc pre (be_bytes 4 (length op)) (op ++ post)))
        ∙ slice-append (pre ++ be_bytes 4 (length op)) op post (offset + 4) (length op)
            (omega
              (arith, length-append pre (be_bytes 4 (length op)), length-be_bytes 4 (length op)))
            refl

length-write_ops :
    (op : List ℕ) (ops : List (List ℕ))
    → length (write_ops (op ∷ ops)) ≡ 4 + length op + length (write_ops ops)
unfolding write_ops
length-write_ops op ops = omega (
  arith,
  length-append (be_bytes 4 (length op)) (op ++ write_ops ops),
  length-append op (write_ops ops),
  length-be_bytes 4 (length op),
)

pub read_loop-write :
    (ops : List (List ℕ)) (pre : List ℕ) (out : List (List ℕ)) (total offset : ℕ)
    → All OpFits ops
    → offset ≡ length pre
    → total ≡ offset + length (write_ops ops)
    → read_loop (pre ++ write_ops ops) total (length ops) offset out ≡ ok (out ++ ops)
unfolding write_ops
read_loop-write [] pre out total offset fits p e =
    read_loop_done _ total offset out (omega (arith, e)) ∙ ap ok (sym (append-nil out))
read_loop-write (op ∷ ops) pre out total offset (fit, fits) p e =
    read_loop_op pre op (write_ops ops) total (length ops) offset out fit p
      (omega (arith, e, length-write_ops op ops))
    ∙ ap (λ (t : List ℕ). read_loop t total (length ops) (offset + 4 + length op) (out ++ op ∷ []))
        regroup
    ∙ read_loop-write ops (pre ++ (be_bytes 4 (length op) ++ op)) (out ++ op ∷ []) total
        (offset + 4 + length op) fits
        (omega (
          arith,
          p,
          length-append pre (be_bytes 4 (length op) ++ op),
          length-append (be_bytes 4 (length op)) op,
          length-be_bytes 4 (length op),
        ))
        (omega (arith, e, length-write_ops op ops))
    ∙ ap ok (append_assoc out (op ∷ []) ops)
  where
    regroup :
        pre ++ (be_bytes 4 (length op) ++ (op ++ write_ops ops))
        ≡ (pre ++ (be_bytes 4 (length op) ++ op)) ++ write_ops ops
    regroup =
        ap (λ (t : List ℕ). pre ++ t)
          (sym (append_assoc (be_bytes 4 (length op)) op (write_ops ops)))
        ∙ sym (append_assoc pre (be_bytes 4 (length op) ++ op) (write_ops ops))

payload_from-write_ops :
    (ops : List (List ℕ)) (sum : ℕ) → payload_from sum ops ≡ sum + length (write_ops ops)
unfolding payload_from write_ops
payload_from-write_ops [] sum = omega arith
payload_from-write_ops (op ∷ ops) sum = omega (
  arith,
  payload_from-write_ops ops (sum + length op + 4),
  length-append (be_bytes 4 (length op)) (op ++ write_ops ops),
  length-append op (write_ops ops),
  length-be_bytes 4 (length op),
)

-- The encoder's own size estimate is what it writes.
pub payload_bytes-write_ops : (ops : List (List ℕ)) → payload_bytes ops ≡ length (write_ops ops)
unfolding payload_bytes
payload_bytes-write_ops ops = omega (arith, payload_from-write_ops ops 0)
