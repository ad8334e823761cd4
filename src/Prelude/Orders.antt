-- ===== src/Prelude/Orders.antt =====
-- `Ord::cmp` on texts, `Ordering::then_with`, and the order that a comparison gives.
use Prim.Native.Nat.{compare}
use mathlib.Core.Path.{◌≡◌, refl}
use mathlib.Core.Bool.{Bool, true, false}
use mathlib.Core.List.{[], ◌∷◌}
use native.Mathlib.Omega.{arith}
use polyglotmesh.Prelude.Chars.{Text}
pub use Prim.Native.Nat.{Ordering}

abbrev pub then_with : Ordering → Ordering → Ordering
then_with Ordering.lt o = Ordering.lt
then_with Ordering.eq o = o
then_with Ordering.gt o = Ordering.gt

-- `cmp(..) != Greater`
abbrev pub is_le : Ordering → Bool
is_le Ordering.lt = true
is_le Ordering.eq = true
is_le Ordering.gt = false

unfoldable pub cmp_text : Text → Text → Ordering
cmp_text [] [] = Ordering.eq
cmp_text [] (b ∷ t) = Ordering.lt
cmp_text (a ∷ s) [] = Ordering.gt
cmp_text (a ∷ s) (b ∷ t) = then_with (compare a b) (cmp_text s t)

pub cmp_text_refl : (s : Text) → cmp_text s s ≡ Ordering.eq
unfolding cmp_text
cmp_text_refl [] = refl
cmp_text_refl (a ∷ s) = ground (arith, cmp_text_refl s)

-- Equal texts only compare as equal.
pub eq_of_cmp_text : (s t : Text) → cmp_text s t ≡ Ordering.eq → s ≡ t
unfolding cmp_text
eq_of_cmp_text [] [] h = refl
eq_of_cmp_text [] (b ∷ t) h = cc
eq_of_cmp_text (a ∷ s) [] h = cc
eq_of_cmp_text (a ∷ s) (b ∷ t) h = ground (arith, eq_of_cmp_text s t)

-- Turning the texts round turns the comparison round.
pub cmp_text-flip : (s t : Text) → (cmp_text s t ≡ Ordering.gt) → cmp_text t s ≡ Ordering.lt
unfolding cmp_text
cmp_text-flip [] [] h = cc
cmp_text-flip [] (b ∷ t) h = cc
cmp_text-flip (a ∷ s) [] h = refl
cmp_text-flip (a ∷ s) (b ∷ t) h = ground (arith, cmp_text-flip s t)

pub cmp_text-flip_lt : (s t : Text) → (cmp_text s t ≡ Ordering.lt) → cmp_text t s ≡ Ordering.gt
unfolding cmp_text
cmp_text-flip_lt [] [] h = cc
cmp_text-flip_lt [] (b ∷ t) h = refl
cmp_text-flip_lt (a ∷ s) [] h = cc
cmp_text-flip_lt (a ∷ s) (b ∷ t) h = ground (arith, cmp_text-flip_lt s t)

pub cmp_text_trans :
    (r s t : Text)
    → is_le (cmp_text r s) ≡ true
    → is_le (cmp_text s t) ≡ true
    → is_le (cmp_text r t) ≡ true
unfolding cmp_text
cmp_text_trans [] [] t h k = k
cmp_text_trans [] (b ∷ s) [] h k = refl
cmp_text_trans [] (b ∷ s) (c ∷ t) h k = refl
cmp_text_trans (a ∷ r) [] t h k = cc
cmp_text_trans (a ∷ r) (b ∷ s) [] h k = cc
cmp_text_trans (a ∷ r) (b ∷ s) (c ∷ t) h k = ground (arith, cmp_text_trans r s t)
