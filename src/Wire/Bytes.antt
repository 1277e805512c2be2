-- ===== src/Wire/Bytes.antt =====
-- Fixed-width unsigned integers in a byte buffer: what `DataView` reads and writes.
use native.Mathlib.Nat.{pow-suc}
use mathlib.Core.List.{append-nil}
use concord_dev.Base.{
  ℕ, zero, suc, ◌+◌, ◌*◌, ◌/◌, ◌%◌, ◌^◌, ◌≤◌, ◌<◌, ◌≡◌, ◌∙◌, ap, List, [], ◌∷◌, ◌++◌, arith, length,
}

abbrev pub All {ℓ κ} : {A : Type ℓ} → (A → Type κ) → List A → Type κ
All P [] = Unit
All P (x ∷ xs) = P x × All P xs

abbrev pub IsByte : ℕ → Type 0
IsByte b = b < 256

-- The `n` low bytes of `v`, most significant first, in front of `rest`.
unfoldable pub be_onto : ℕ → ℕ → List ℕ → List ℕ
be_onto zero v rest = rest
be_onto (suc n) v rest = be_onto n (v / 256) ((v % 256) ∷ rest)

unfoldable pub be_bytes : ℕ → ℕ → List ℕ
unfolding be_onto
be_bytes n v = be_onto n v []

-- The number that bytes spell, most significant first, behind the bytes of `acc`.
unfoldable pub be_from : ℕ → List ℕ → ℕ
be_from acc [] = acc
be_from acc (b ∷ bs) = be_from (acc * 256 + b) bs

unfoldable pub be_value : List ℕ → ℕ
unfolding be_from
be_value bs = be_from 0 bs

be_from-onto :
    (n acc v : ℕ) (rest : List ℕ)
    → v < 256 ^ n
    → be_from acc (be_onto n v rest) ≡ be_from (acc * 256 ^ n + v) rest
unfolding be_from be_onto
be_from-onto zero acc v rest h = ap (λ (t : ℕ). be_from t rest) (omega arith)
be_from-onto (suc n) acc v rest h =
    be_from-onto n acc (v / 256) ((v % 256) ∷ rest) (omega (arith, pow-suc 256 n))
    ∙ ap (λ (t : ℕ). be_from t rest) (omega (arith, ap (λ (t : ℕ). acc * t) (pow-suc 256 n)))

-- A number that fits in `n` bytes is read back from them.
pub be_value-bytes : (n v : ℕ) → v < 256 ^ n → be_value (be_bytes n v) ≡ v
unfolding be_value be_bytes
be_value-bytes n v h = be_from-onto n 0 v [] h ∙ (unfold be_from in omega arith)

be_onto-from :
    (bs : List ℕ) (k acc : ℕ) (rest : List ℕ)
    → All IsByte bs
    → be_onto (k + length bs) (be_from acc bs) rest ≡ be_onto k acc (bs ++ rest)
unfolding be_onto be_from
be_onto-from [] k acc rest h = let e : k + 0 ≡ k = omega arith in rw e
be_onto-from (b ∷ bs) k acc rest h =
    let e : k + suc (length bs) ≡ suc k + length bs = omega arith in
    let q : (acc * 256 + b) / 256 ≡ acc = omega arith in
    let r : (acc * 256 + b) % 256 ≡ b = omega arith in
    rw e (
      be_onto-from bs (suc k) (acc * 256 + b) rest h.1
      ∙ ap (λ (t : ℕ). be_onto k t (((acc * 256 + b) % 256) ∷ (bs ++ rest))) q
      ∙ ap (λ (t : ℕ). be_onto k acc (t ∷ (bs ++ rest))) r)

length-be_onto : (n v : ℕ) (rest : List ℕ) → length (be_onto n v rest) ≡ n + length rest
unfolding be_onto
length-be_onto zero v rest = omega arith
length-be_onto (suc n) v rest = omega (arith, length-be_onto n (v / 256) ((v % 256) ∷ rest))

pub length-be_bytes : (n v : ℕ) → length (be_bytes n v) ≡ n
unfolding be_bytes
length-be_bytes n v = omega (arith, length-be_onto n v [])

-- Bytes are written back from the number that they spell.
pub be_bytes-value : (bs : List ℕ) → All IsByte bs → be_bytes (length bs) (be_value bs) ≡ bs
unfolding be_value be_bytes be_onto
be_bytes-value bs h =
    let e : length bs ≡ 0 + length bs = omega arith in
    ap (λ (t : ℕ). be_onto t (be_from 0 bs) []) e ∙ be_onto-from bs 0 0 [] h ∙ append-nil bs

be_from-lt : (bs : List ℕ) (acc : ℕ) → All IsByte bs → be_from acc bs < (acc + 1) * 256 ^ length bs
unfolding be_from
be_from-lt [] acc h = omega arith
be_from-lt (b ∷ bs) acc h =
    let p : (acc * 256 + b + 1) * 256 ^ length bs ≤ (acc * 256 + 256) * 256 ^ length bs =
      widen (acc * 256 + b + 1) (acc * 256 + 256) (256 ^ length bs) (omega (arith, h.0)) in
    omega (
      arith,
      p,
      be_from-lt bs (acc * 256 + b) h.1,
      ap (λ (t : ℕ). (acc + 1) * t) (pow-suc 256 (length bs)),
    )
  where
    widen : (a c k : ℕ) → a ≤ c → a * k ≤ c * k
    widen a c k le = grind arith

pub be_value-lt : (bs : List ℕ) → All IsByte bs → be_value bs < 256 ^ length bs
unfolding be_value
be_value-lt bs h = omega (arith, be_from-lt bs 0 h)
