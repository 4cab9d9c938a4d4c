-- ===== src/Ipc/Queue/Order.antt =====
-- Lists that come from others by leaving items out, in the same order.
use dev_harness.Common.{List, [], ◌∷◌, ◌++◌, nat_eq, string_eq}

pub data Sublist {A : Type 0} : List A → List A → Type 0 where
  done : Sublist [] []
  take_it : {x : A} {xs ys : List A} → Sublist xs ys → Sublist (x ∷ xs) (x ∷ ys)
  leave : {y : A} {xs ys : List A} → Sublist xs ys → Sublist xs (y ∷ ys)

pub same : {A : Type 0} (xs : List A) → Sublist xs xs
same [] = done
same (x ∷ xs) = take_it (same xs)

pub empty : {A : Type 0} (xs : List A) → Sublist [] xs
empty [] = done
empty (x ∷ xs) = leave (empty xs)

pub after : {A : Type 0} {xs ys zs : List A} → Sublist xs ys → Sublist ys zs → Sublist xs zs
after s done = s
after s (leave t) = leave (after s t)
after (take_it s) (take_it t) = take_it (after s t)
after (leave s) (take_it t) = leave (after s t)

pub behind :
    {A : Type 0} (ps : List A) {xs ys : List A} → Sublist xs ys → Sublist (ps ++ xs) (ps ++ ys)
behind [] s = s
behind (p ∷ ps) s = take_it (behind ps s)

pub before :
    {A : Type 0} (ps : List A) {xs ys : List A} → Sublist xs ys → Sublist (xs ++ ps) (ys ++ ps)
before ps done = same ps
before ps (take_it s) = take_it (before ps s)
before ps (leave s) = leave (before ps s)
