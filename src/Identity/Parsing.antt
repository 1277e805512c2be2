-- ===== src/Identity/Parsing.antt =====
-- src/lib/sync/identities.ts: `formatOpIdentity` and `parseOpIdentity`.
use concord_dev.Identity.{
  in_base, big_int_value, digit_value, big_int_trimmed, split_colon, parse_op_identity,
  format_op_identity,
}
use concord_dev.Base.{
  ℕ, ◌+◌, ◌*◌, ◌-◌, ◌<◌, ◌≡◌, refl, ap, ◌∙◌, true, false, some, [], ◌∷◌, ◌++◌, arith, ◌==◌,
}
use concord_dev.Base.Text.{Text, trim, trim_start, trim_end}
use concord_dev.Base.Decimal.{
  all_digits, to_nat, print, is_canonical, value_from, is_canonical-print, to_nat-print,
}

pub all_digits-canonical : (s : Text) → is_canonical s ≡ true → all_digits s ≡ true
unfolding is_canonical all_digits
all_digits-canonical [] h = refl
all_digits-canonical (c ∷ []) h = ground (arith, h)
all_digits-canonical (c ∷ d ∷ s) h = ground (arith, h)

trim_start-digits : (s : Text) → all_digits s ≡ true → trim_start s ≡ s
unfolding trim_start all_digits
trim_start-digits [] h = refl
trim_start-digits (c ∷ s) h = ground (arith, h)

trim_end-digits : (s : Text) → all_digits s ≡ true → trim_end s ≡ s
unfolding trim_end all_digits
trim_end-digits [] h = refl
trim_end-digits (c ∷ s) h = ground (arith, h, trim_end-digits s)

in_base-value :
    (acc : ℕ) (s : Text) → all_digits s ≡ true → in_base 10 acc s ≡ some (value_from acc s)
unfolding in_base all_digits value_from
in_base-value acc [] h = refl
in_base-value acc (c ∷ s) h =
    let rest = in_base-value (acc * 10 + (c - b'0')) s (ground (arith, h)) in
    let digit : digit_value c ≡ c - b'0' = ground (arith, h) in
    rw digit (rw rest (ground (arith, h)))

big_int_trimmed-canonical : (s : Text) → is_canonical s ≡ true → big_int_trimmed s ≡ some (to_nat s)
unfolding big_int_trimmed to_nat is_canonical
big_int_trimmed-canonical [] h = absurd (ground (arith, h))
big_int_trimmed-canonical (c ∷ []) h = in_base-value 0 (c ∷ []) (all_digits-canonical (c ∷ []) h)
big_int_trimmed-canonical (c ∷ d ∷ s) h =
    ground (arith, h, in_base-value 0 (c ∷ d ∷ s) (all_digits-canonical (c ∷ d ∷ s) h))

-- A canonical decimal text is read as its value.
pub big_int_value-canonical : (s : Text) → is_canonical s ≡ true → big_int_value s ≡ some (to_nat s)
unfolding big_int_value
big_int_value-canonical s h =
    let digits = all_digits-canonical s h in
    let whole : trim s ≡ s = rw (trim_start-digits s digits) (trim_end-digits s digits) in
    rw whole (big_int_trimmed-canonical s h)

split_colon-digits : (s : Text) → all_digits s ≡ true → split_colon s ≡ s ∷ []
unfolding split_colon all_digits
split_colon-digits [] h = refl
split_colon-digits (c ∷ s) h =
    let rest = split_colon-digits s (ground (arith, h)) in
    let other : (c == b':') ≡ false = ground (arith, h) in rw (rest, other) refl

split_colon-append :
    (s t : Text) → all_digits s ≡ true → split_colon (s ++ (b':' ∷ t)) ≡ s ∷ split_colon t
unfolding split_colon all_digits
split_colon-append [] t h = refl
split_colon-append (c ∷ s) t h =
    let rest = split_colon-append s t (ground (arith, h)) in
    let other : (c == b':') ≡ false = ground (arith, h) in rw (rest, other) refl

print-all_digits : (n : ℕ) → all_digits (print n) ≡ true
print-all_digits n = all_digits-canonical (print n) (is_canonical-print n)

big_int_value-print : (n : ℕ) → big_int_value (print n) ≡ some n
big_int_value-print n =
    big_int_value-canonical (print n) (is_canonical-print n) ∙ ap some (to_nat-print n)

pub split_colon-format :
    (replica counter : ℕ)
    → split_colon (format_op_identity replica counter) ≡ print replica ∷ print counter ∷ []
unfolding format_op_identity
split_colon-format replica counter =
    split_colon-append (print replica) (print counter) (print-all_digits replica)
    ∙ ap (λ t. print replica ∷ t) (split_colon-digits (print counter) (print-all_digits counter))

-- An identity of positive numbers is read back from its text.
pub parse_op_identity-format :
    (replica counter : ℕ)
    → 0 < replica
    → 0 < counter
    → parse_op_identity (format_op_identity replica counter)
      ≡ some (record { replica = replica; counter = counter })
unfolding parse_op_identity format_op_identity
parse_op_identity-format replica counter r c =
    let parts = split_colon-format replica counter in
    rw (parts, big_int_value-print replica, big_int_value-print counter, parse_op_identity)
      (ground arith)
