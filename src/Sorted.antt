-- ===== src/Sorted.antt =====
-- Python's `sorted` on strings, which it compares by code points, and how often a list holds a string.
pub mod Order
use Prim.Native.String.{compare}
use Prim.Native.Nat.{Ordering}
use dev_harness.Common.{
  ℕ, suc, ◌+◌, String, ◌≡◌, refl, Bool, true, false, List, [], ◌∷◌, ◌++◌, arith, ◌==◌, nat_eq,
  string_eq, if◌then◌else◌, length,
}

abbrev pub str_leb : String → String → Bool
str_leb s t = elim (compare s t) [ Ordering.gt ↦ false | _ ↦ true ]

unfoldable pub insert : String → List String → List String
insert s [] = s ∷ []
insert s (t ∷ ts) = if str_leb s t then s ∷ t ∷ ts else t ∷ insert s ts

unfoldable pub sort : List String → List String
unfolding insert
sort [] = []
sort (s ∷ ss) = insert s (sort ss)

abbrev pub count : String → List String → ℕ
count s [] = 0
count s (t ∷ ts) = (if t == s then 1 else 0) + count s ts

pub count-append : (s : String) (xs ys : List String) → count s (xs ++ ys) ≡ count s xs + count s ys
count-append s [] ys = omega arith
count-append s (x ∷ xs) ys = omega (arith, count-append s xs ys)

count-insert : (s t : String) (ts : List String) → count s (insert t ts) ≡ count s (t ∷ ts)
unfolding insert
count-insert s t [] = refl
count-insert s t (u ∷ us) = ground (arith, count-insert s t us)

pub count-sort : (s : String) (ts : List String) → count s (sort ts) ≡ count s ts
unfolding sort
count-sort s [] = refl
count-sort s (t ∷ ts) = omega (arith, count-insert s t (sort ts), count-sort s ts)

length-insert : (t : String) (ts : List String) → length (insert t ts) ≡ suc (length ts)
unfolding insert
length-insert t [] = refl
length-insert t (u ∷ us) = ground (arith, length-insert t us)

pub length-sort : (ts : List String) → length (sort ts) ≡ length ts
unfolding sort
length-sort [] = refl
length-sort (t ∷ ts) = omega (arith, length-insert t (sort ts), length-sort ts)
