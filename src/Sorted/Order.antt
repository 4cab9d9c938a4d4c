-- ===== src/Sorted/Order.antt =====
-- The order of Python's strings is total.
use Prim.Native.Nat.compare as compare_ℕ
use Prim.Native.String.compare
use Prim.Native.Char.{code}
use Prim.Native.String.{String, [], ◌∷◌, compare, then}
use Prim.Native.Nat.{ℕ, zero, suc, Ordering, compare as compare_ℕ}
use dev_harness.Common.{◌≡◌, refl, sym, ap, ◌∙◌, Bool, true, false}
use dev_harness.Sorted.{str_leb}

flip : Ordering → Ordering
flip Ordering.lt = Ordering.gt
flip Ordering.eq = Ordering.eq
flip Ordering.gt = Ordering.lt

flip-then : (o r : Ordering) → flip (then o r) ≡ then (flip o) (flip r)
unfolding flip
flip-then Ordering.lt r = refl
flip-then Ordering.eq r = refl
flip-then Ordering.gt r = refl

flip_numbers : (m n : ℕ) → compare_ℕ n m ≡ flip (compare_ℕ m n)
unfolding flip
flip_numbers zero zero = rw compare_ℕ.zero-zero refl
flip_numbers zero (suc n) = rw (compare_ℕ.zero-suc n, compare_ℕ.suc-zero n) refl
flip_numbers (suc m) zero = rw (compare_ℕ.zero-suc m, compare_ℕ.suc-zero m) refl
flip_numbers (suc m) (suc n) =
    compare_ℕ.suc-suc n m ∙ flip_numbers m n ∙ ap flip (sym (compare_ℕ.suc-suc m n))

flip_texts : (s t : String) → compare t s ≡ flip (compare s t)
unfolding flip
flip_texts [] [] = rw compare.nil-nil refl
flip_texts [] (d ∷ t) = rw (compare.nil-cons d t, compare.cons-nil d t) refl
flip_texts (c ∷ s) [] = rw (compare.nil-cons c s, compare.cons-nil c s) refl
flip_texts (c ∷ s) (d ∷ t) =
    compare.cons-cons d c t s
    ∙ ap (λ o. then o (compare t s)) (flip_numbers (code c) (code d))
    ∙ ap (λ o. then (flip (compare_ℕ (code c) (code d))) o) (flip_texts s t)
    ∙ sym (flip-then (compare_ℕ (code c) (code d)) (compare s t))
    ∙ ap flip (sym (compare.cons-cons c d s t))

abbrev not_gt : Ordering → Bool
not_gt Ordering.gt = false
not_gt _ = true

chosen : (o : Ordering) → (elim o [ Ordering.gt ↦ false | _ ↦ true ]) ≡ not_gt o
chosen Ordering.lt = refl
chosen Ordering.eq = refl
chosen Ordering.gt = refl

str_leb-not_gt : (s t : String) → str_leb s t ≡ not_gt (compare s t)
str_leb-not_gt s t = chosen (compare s t)

flipped : (o : Ordering) → not_gt o ≡ false → not_gt (flip o) ≡ true
unfolding flip
flipped Ordering.lt h = absurd (cc h)
flipped Ordering.eq h = absurd (cc h)
flipped Ordering.gt h = refl

pub str_leb_total : (s t : String) → str_leb s t ≡ false → str_leb t s ≡ true
str_leb_total s t h =
    str_leb-not_gt t s
    ∙ ap not_gt (flip_texts s t)
    ∙ flipped (compare s t) (sym (str_leb-not_gt s t) ∙ h)
