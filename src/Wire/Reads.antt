-- ===== src/Wire/Reads.antt =====
-- The loop of `readOps` in reverse: what a successful run says of the bytes.
use mathlib.Core.List.{append_assoc, append-nil}
use mathlib.Core.Path.{subst}
use concord_dev.Base.{
  ℕ, zero, suc, ◌+◌, ◌≤◌, ◌<◌, ◌≡◌, refl, sym, ap, ◌∙◌, true, false, List, [], ◌∷◌, ◌++◌, arith,
  ltb, length, take, drop, drop-add, drop_all, take-append-drop, length-take, length-drop,
  Bool-cases, inl, inr,
}
use concord_dev.Wire.{ok, slice, get_uint, read_loop, read_ops, write_ops, max_op_bytes}
use concord_dev.Wire.Bytes.{be_bytes, be_bytes-value, All, IsByte}
use concord_dev.Wire.WriteOps.{OpFits}

All-take : (n : ℕ) (xs : List ℕ) → All IsByte xs → All IsByte (take n xs)
All-take zero xs h = tt
All-take (suc n) [] h = tt
All-take (suc n) (x ∷ xs) h = (h.0, All-take n xs h.1)

All-drop : (n : ℕ) (xs : List ℕ) → All IsByte xs → All IsByte (drop n xs)
All-drop zero xs h = h
All-drop (suc n) [] h = tt
All-drop (suc n) (x ∷ xs) h = All-drop n xs h.1

pub All-slice :
    (bytes : List ℕ) (offset n : ℕ) → All IsByte bytes → All IsByte (slice bytes offset n)
All-slice bytes offset n h = All-take n (drop offset bytes) (All-drop offset bytes h)

pub length-slice :
    (bytes : List ℕ) (offset n : ℕ) → offset + n ≤ length bytes → length (slice bytes offset n) ≡ n
length-slice bytes offset n h =
    omega (arith, length-take n (drop offset bytes), length-drop offset bytes)

-- The field of `n` bytes at `offset` is what `n` bytes of its number would be.
pub be_bytes-slice :
    (bytes : List ℕ) (offset n : ℕ)
    → All IsByte bytes
    → offset + n ≤ length bytes
    → be_bytes n (get_uint bytes offset n) ≡ slice bytes offset n
be_bytes-slice bytes offset n h room =
    ap (λ (t : ℕ). be_bytes t (get_uint bytes offset n)) (sym (length-slice bytes offset n room))
    ∙ be_bytes-value (slice bytes offset n) (All-slice bytes offset n h)

pub slice-drop :
    (bytes : List ℕ) (offset n : ℕ)
    → drop offset bytes ≡ slice bytes offset n ++ drop (offset + n) bytes
slice-drop bytes offset n =
    sym (take-append-drop n (drop offset bytes))
    ∙ ap (λ (t : List ℕ). slice bytes offset n ++ t) (sym (drop-add offset n bytes))

read_loop_round :
    (bytes : List ℕ) (total left offset : ℕ) (out ops : List (List ℕ))
    → read_loop bytes total (suc left) offset out ≡ ok ops
    → (offset + 4 + get_uint bytes offset 4 ≤ total)
      × (0 < get_uint bytes offset 4)
      × (get_uint bytes offset 4 ≤ max_op_bytes)
      × (read_loop bytes total left
            (offset + 4 + get_uint bytes offset 4)
            (out ++ slice bytes (offset + 4) (get_uint bytes offset 4) ∷ [])
          ≡ ok ops)
unfolding read_loop
read_loop_round bytes total left offset out ops e = ground arith

read_loop_end :
    (bytes : List ℕ) (total offset : ℕ) (out ops : List (List ℕ))
    → read_loop bytes total 0 offset out ≡ ok ops
    → (offset ≡ total) × (ops ≡ out)
unfolding read_loop
read_loop_end bytes total offset out ops e = ground arith

-- The operations that a run of the loop adds account for every byte from `offset` on.
record Reads (bytes : List ℕ) (left offset : ℕ) (out ops : List (List ℕ)) : Type 0 where
  new : List (List ℕ)
  added : ops ≡ out ++ new
  count : length new ≡ left
  fits : All OpFits new
  written : drop offset bytes ≡ write_ops new

read_loop-Reads :
    (bytes : List ℕ) (left offset : ℕ) (out ops : List (List ℕ))
    → All IsByte bytes
    → read_loop bytes (length bytes) left offset out ≡ ok ops
    → Reads bytes left offset out ops
unfolding write_ops
read_loop-Reads bytes zero offset out ops h e =
    let (last, same) = read_loop_end bytes (length bytes) offset out ops e in
    record {
      new = [];
      added = same ∙ sym (append-nil out);
      count = refl;
      fits = tt;
      written = drop_all offset bytes (omega arith);
    }
read_loop-Reads bytes (suc left) offset out ops h e =
    let (room, pos, cap, more) = read_loop_round bytes (length bytes) left offset out ops e in
    let r =
      read_loop-Reads bytes left (offset + 4 + get_uint bytes offset 4)
        (out ++ slice bytes (offset + 4) (get_uint bytes offset 4) ∷ []) ops h more in
    let op = slice bytes (offset + 4) (get_uint bytes offset 4) in
    let size = length-slice bytes (offset + 4) (get_uint bytes offset 4) room in
    record {
      new = op ∷ r.new;
      added = r.added ∙ append_assoc out (op ∷ []) r.new;
      count = ap suc r.count;
      fits = ((omega (arith, size), omega (arith, size)), r.fits);
      written =
          slice-drop bytes offset 4
          ∙ ap (λ (t : List ℕ). t ++ drop (offset + 4) bytes)
              (sym (be_bytes-slice bytes offset 4 h (omega arith)))
          ∙ ap (λ (t : ℕ). be_bytes 4 t ++ drop (offset + 4) bytes) (sym size)
          ∙ ap (λ (t : List ℕ). be_bytes 4 (length op) ++ t)
              (slice-drop bytes (offset + 4) (get_uint bytes offset 4))
          ∙ ap (λ (t : List ℕ). be_bytes 4 (length op) ++ (op ++ t)) r.written;
    }

-- What `readOps` returns has the announced count, and its operations fill the frame to the end.
pub read_ops-Reads :
    (bytes : List ℕ) (start count most : ℕ) (ops : List (List ℕ))
    → All IsByte bytes
    → read_ops bytes start count most (length bytes) ≡ ok ops
    → (length ops ≡ count) × (count ≤ most) × All OpFits ops × (drop start bytes ≡ write_ops ops)
unfolding read_ops
read_ops-Reads bytes start count most ops h e = elim (Bool-cases (ltb most count)) [
  | inl over ↦ absurd (refused over)
  | inr within ↦
      let r = read_loop-Reads bytes count start [] ops h (loop within) in
      let same : r.new ≡ ops = sym r.added in
      (
        ap length (sym same) ∙ r.count,
        ground arith,
        subst (All OpFits) same r.fits,
        r.written ∙ ap write_ops same,
      )
]
  where
    refused : ltb most count ≡ true → ⊥
    refused over = ground arith

    loop : ltb most count ≡ false → read_loop bytes (length bytes) count start [] ≡ ok ops
    loop within = ground arith
