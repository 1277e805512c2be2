-- ===== src/Base/Text.antt =====
-- Texts as lists of UTF-16 code units: equality, and the order of keys in IndexedDB.
use concord_dev.Base.Tests.{◌==◌, if◌then◌else◌, ltb, leb}
use Prim.Native.Nat.{ℕ, ◌<◌, ◌+◌}
use mathlib.Core.Path.{◌≡◌, refl}
use mathlib.Core.Logic.{◌↔◌}
use mathlib.Core.Bool.{Bool, true, false, ◌&&◌, ◌||◌}
use mathlib.Core.List.{List, [], ◌∷◌, ◌++◌}
use native.Mathlib.Omega.{arith}

abbrev pub Text : Type 0
Text = List ℕ

unfoldable pub text_eq : Text → Text → Bool
text_eq [] [] = true
text_eq (c ∷ s) (d ∷ t) = c == d && text_eq s t
text_eq _ _ = false

pub text_eq_iff : (s t : Text) → (text_eq s t ≡ true) ↔ (s ≡ t)
unfolding text_eq
text_eq_iff [] [] = (λ e. refl, λ e. refl)
text_eq_iff [] (d ∷ t) = (λ e. cc, λ e. cc)
text_eq_iff (c ∷ s) [] = (λ e. cc, λ e. cc)
text_eq_iff (c ∷ s) (d ∷ t) = ground (arith, text_eq_iff s t)

pub text_eq_self : (s : Text) → text_eq s s ≡ true
text_eq_self s = (text_eq_iff s s).1 refl

-- s ≤ t, code unit by code unit.
unfoldable pub text_le : Text → Text → Bool
text_le [] t = true
text_le (c ∷ s) [] = false
text_le (c ∷ s) (d ∷ t) = let rest = text_le s t in if ltb c d then true else c == d && rest

-- IDBKeyRange.bound(prefix, prefix + "\uffff")
abbrev pub in_range : Text → Text → Bool
in_range prefix key = text_le prefix key && text_le key (prefix ++ 0xffff ∷ [])

pub text_le-append : (p s : Text) → text_le p (p ++ s) ≡ true
unfolding text_le
text_le-append [] s = refl
text_le-append (c ∷ p) s = ground (arith, text_le-append p s)

pub text_le-append_left : (p s t : Text) → text_le (p ++ s) (p ++ t) ≡ text_le s t
unfolding text_le
text_le-append_left [] s t = refl
text_le-append_left (c ∷ p) s t = ground (arith, text_le-append_left p s t)

-- A key that goes on with the prefix lies in the range, unless its next unit is 0xffff.
pub in_range-append : (p : Text) (c : ℕ) (s : Text) → c < 0xffff → in_range p (p ++ c ∷ s) ≡ true
in_range-append p c s h =
    let upper : text_le (c ∷ s) (0xffff ∷ []) ≡ true = unfold text_le in ground arith in
    ground (arith, text_le-append p (c ∷ s), text_le-append_left p (c ∷ s) (0xffff ∷ []), upper)

-- The order of code units is total.
pub text_le_total : (s t : Text) → text_le s t ≡ false → text_le t s ≡ true
unfolding text_le
text_le_total [] t h = absurd (ground (arith, h))
text_le_total (c ∷ s) [] h = refl
text_le_total (c ∷ s) (d ∷ t) h = ground (arith, text_le_total s t, h)

-- The units that `trim` removes.
abbrev pub is_space : ℕ → Bool
is_space c =
    leb 9 c && leb c 13
    || c == 32
    || c == 160
    || c == 0x1680
    || leb 0x2000 c && leb c 0x200a
    || c == 0x2028
    || c == 0x2029
    || c == 0x202f
    || c == 0x205f
    || c == 0x3000
    || c == 0xfeff

unfoldable pub trim_start : Text → Text
trim_start [] = []
trim_start (c ∷ s) = if is_space c then trim_start s else c ∷ s

unfoldable pub trim_end : Text → Text
trim_end [] = []
trim_end (c ∷ s) = let rest = trim_end s in if is_space c && text_eq rest [] then [] else c ∷ rest

abbrev pub trim : Text → Text
trim s = trim_end (trim_start s)

-- `toLowerCase` on the letters from A to Z.
abbrev pub lower : ℕ → ℕ
lower c = if leb b'A' c && leb c b'Z' then c + 32 else c
