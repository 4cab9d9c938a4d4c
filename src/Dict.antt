-- ===== src/Dict.antt =====
-- Python's `dict`: keys in the order of their first insertion, a rewritten key keeps its place.
use mathlib.Core.Path.{subst}
use dev_harness.Common.{
  ℕ, ◌+◌, ◌≡◌, refl, Bool, true, false, Option, none, some, List, [], ◌∷◌, map, arith, Eq, ◌==◌,
  beq_refl, beq_sym_false, Bool-cases, inl, inr, if◌then◌else◌,
}

abbrev pub Dict {ℓ κ} : Type ℓ → Type κ → Type (ℓ ⊔ κ)
Dict K V = List (K × V)

module _ {ℓ κ} {K : Type ℓ} {V : Type κ} ⦃e : Eq K⦄ where
  -- d.get(k)
  unfoldable pub get : K → Dict K V → Option V
  get k [] = none
  get k ((j, v) ∷ d) = if j == k then some v else get k d

  -- d[k] = v
  unfoldable pub put : K → V → Dict K V → Dict K V
  put k v [] = (k, v) ∷ []
  put k v ((j, w) ∷ d) = if j == k then (j, v) ∷ d else (j, w) ∷ put k v d

  -- d.pop(k, None)
  unfoldable pub remove : K → Dict K V → Dict K V
  remove k [] = []
  remove k ((j, v) ∷ d) = if j == k then remove k d else (j, v) ∷ remove k d

  pub get-put :
      (k j : K) (v : V) (d : Dict K V) → get j (put k v d) ≡ (if k == j then some v else get j d)
  unfolding get put
  get-put k j v [] = refl
  get-put k j v ((i, w) ∷ d) =
      ground (arith, e.beq_iff k j, e.beq_iff i k, e.beq_iff i j, get-put k j v d)

  pub get-remove :
      (k j : K) (d : Dict K V) → get j (remove k d) ≡ (if k == j then none else get j d)
  unfolding get remove
  get-remove k j [] = ground arith
  get-remove k j ((i, w) ∷ d) =
      ground (arith, e.beq_iff k j, e.beq_iff i k, e.beq_iff i j, get-remove k j d)

  pub get-put_self : (k : K) (v : V) (d : Dict K V) → get k (put k v d) ≡ some v
  get-put_self k v d = simp (get-put, beq_refl)

module _ {ℓ κ} {K : Type ℓ} {V : Type κ} ⦃e : Eq K⦄ where
  -- No key stands twice, as in every dict that is built by `put` and `remove`.
  abbrev pub IsUnique : Dict K V → Type κ
  IsUnique [] = Unit
  IsUnique ((k, v) ∷ d) = (get k d ≡ none) × IsUnique d

  pub put-IsUnique : (k : K) (v : V) (d : Dict K V) → IsUnique d → IsUnique (put k v d)
  unfolding put
  put-IsUnique k v [] u = (unfold get in refl, tt)
  put-IsUnique k v ((j, w) ∷ d) u = elim (Bool-cases (j == k)) [
    | inl same ↦ rw same u
    | inr other ↦ rw other ((rw (get-put, (beq_sym_false j k other)) u.0), put-IsUnique k v d u.1)
  ]

  remove_absent : (k j : K) (d : Dict K V) → get j d ≡ none → get j (remove k d) ≡ none
  remove_absent k j d h = ground (arith, get-remove k j d)

  pub remove-IsUnique : (k : K) (d : Dict K V) → IsUnique d → IsUnique (remove k d)
  unfolding remove
  remove-IsUnique k [] u = tt
  remove-IsUnique k ((j, w) ∷ d) u = elim (Bool-cases (j == k)) [
    | inl same ↦ rw same (remove-IsUnique k d u.1)
    | inr other ↦ rw other (remove_absent k j d u.0, remove-IsUnique k d u.1)
  ]

module _ {ℓ κ μ} {K : Type ℓ} {V : Type κ} ⦃e : Eq K⦄ (P : V → Type μ) where
  -- Every value that the dict holds has the property.
  abbrev pub AllValues : Dict K V → Type (ℓ ⊔ κ ⊔ μ)
  AllValues d = (k : K) (v : V) → get k d ≡ some v → P v

  pub put-AllValues : (k : K) (v : V) (d : Dict K V) → AllValues d → P v → AllValues (put k v d)
  put-AllValues k v d all h j w found = elim (Bool-cases (k == j)) [
    | inl same ↦ let stored : v ≡ w = ground (arith, get-put k j v d) in subst P stored h
    | inr other ↦ all j w (rw (get-put, other) at found)
  ]

pub ruleset dict_laws = (get-put, get-remove, beq_refl)
