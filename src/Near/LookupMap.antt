-- ===== src/Near/LookupMap.antt =====
-- A map keyed by account (near_sdk::collections::LookupMap), as an association list.
use cheddar.Prelude.{
  ℕ, ◌+◌, ◌≤◌, ◌≡◌, refl, ◌≢◌, Bool, true, false, Option, none, some, List, [], ◌∷◌, arith, ◌==◌,
  if◌then◌else◌, Bool-cases, inl, inr, subst,
}

abbrev pub LookupMap : Type 0 → Type 0
LookupMap V = List (ℕ × V)

module _ {V : Type 0} where
  unfoldable pub get : ℕ → LookupMap V → Option V
  get k [] = none
  get k ((j, v) ∷ m) = if k == j then some v else get k m

  unfoldable pub contains_key : ℕ → LookupMap V → Bool
  contains_key k m = elim (get k m) [ none ↦ false | some _ ↦ true ]

  unfoldable pub insert : ℕ → V → LookupMap V → LookupMap V
  insert k v [] = (k, v) ∷ []
  insert k v (e ∷ m) = if k == e.0 then (k, v) ∷ m else e ∷ insert k v m

  unfoldable pub remove : ℕ → LookupMap V → LookupMap V
  remove k [] = []
  remove k (e ∷ m) = if k == e.0 then m else e ∷ remove k m

  -- No key is stored twice.
  abbrev pub IsMap : LookupMap V → Type 0
  IsMap [] = Unit {0}
  IsMap ((k, _) ∷ m) = (get k m ≡ none) × IsMap m

  pub get-insert :
      (j k : ℕ) (v : V) (m : LookupMap V)
      → get j (insert k v m) ≡ (if j == k then some v else get j m)
  unfolding get insert
  get-insert j k v [] = ground arith
  get-insert j k v (e ∷ m) = ground (arith, get-insert j k v m)

  pub get-remove_ne : (j k : ℕ) (m : LookupMap V) → j ≢ k → get j (remove k m) ≡ get j m
  unfolding get remove
  get-remove_ne j k [] h = refl
  get-remove_ne j k (e ∷ m) h = ground (arith, get-remove_ne j k m h)

  pub get-remove_self : (k : ℕ) (m : LookupMap V) → IsMap m → get k (remove k m) ≡ none
  unfolding get remove
  get-remove_self k [] h = refl
  get-remove_self k (e ∷ m) h = ground (arith, get-remove_self k m h.1)

  pub insert-IsMap : (k : ℕ) (v : V) (m : LookupMap V) → IsMap m → IsMap (insert k v m)
  unfolding get insert
  insert-IsMap k v [] h = (refl, tt)
  insert-IsMap k v (e ∷ m) h = ground (arith, insert-IsMap k v m h.1, get-insert e.0 k v m)

  pub remove-IsMap : (k : ℕ) (m : LookupMap V) → IsMap m → IsMap (remove k m)
  unfolding get remove
  remove-IsMap k [] h = tt
  remove-IsMap k (e ∷ m) h = ground (arith, remove-IsMap k m h.1, get-remove_ne e.0 k m)

-- Every stored value has the property.
module _ {V : Type 0} (P : V → Type 0) where
  unfoldable pub All : LookupMap V → Type 0
  All [] = Unit {0}
  All (e ∷ m) = P e.1 × All m

  pub All-nil : All []
  unfolding All
  All-nil = tt

  pub All-get : (k : ℕ) (m : LookupMap V) {v : V} → All m → get k m ≡ some v → P v
  unfolding get All
  All-get k [] {v} h found = absurd (ground arith)
  All-get k (e ∷ m) {v} h found = elim (Bool-cases (k == e.0)) [
    | inl here ↦ (let same : e.1 ≡ v = ground arith in subst P same h.0)
    | inr there ↦ All-get k m h.1 (ground arith)
  ]

  pub All-insert : (k : ℕ) (v : V) (m : LookupMap V) → All m → P v → All (insert k v m)
  unfolding insert All
  All-insert k v [] h p = (p, tt)
  All-insert k v (e ∷ m) h p = ground (arith, All-insert k v m h.1 p)

  pub All-remove : (k : ℕ) (m : LookupMap V) → All m → All (remove k m)
  unfolding remove All
  All-remove k [] h = tt
  All-remove k (e ∷ m) h = ground (arith, All-remove k m h.1)

-- The sum of a measure over the stored values.
module _ {V : Type 0} (f : V → ℕ) where
  abbrev pub weight : Option V → ℕ
  weight none = 0
  weight (some v) = f v

  unfoldable pub sum_by : LookupMap V → ℕ
  sum_by [] = 0
  sum_by (e ∷ m) = f e.1 + sum_by m

  pub sum_by-nil : sum_by [] ≡ 0
  unfolding sum_by
  sum_by-nil = refl

  pub sum_by-insert :
      (k : ℕ) (v : V) (m : LookupMap V) → sum_by (insert k v m) + weight (get k m) ≡ sum_by m + f v
  unfolding get insert sum_by
  sum_by-insert k v [] = ground arith
  sum_by-insert k v (e ∷ m) = ground (arith, sum_by-insert k v m)

  pub sum_by-remove : (k : ℕ) (m : LookupMap V) → sum_by (remove k m) + weight (get k m) ≡ sum_by m
  unfolding get remove sum_by
  sum_by-remove k [] = ground arith
  sum_by-remove k (e ∷ m) = ground (arith, sum_by-remove k m)

  pub weight-le : (k : ℕ) (m : LookupMap V) → weight (get k m) ≤ sum_by m
  unfolding get sum_by
  weight-le k [] = omega arith
  weight-le k (e ∷ m) = ground (arith, weight-le k m)

  -- Two different keys hold no more than the sum together.
  pub weight-add-le :
      (j k : ℕ) (m : LookupMap V) → j ≢ k → weight (get j m) + weight (get k m) ≤ sum_by m
  unfolding get sum_by
  weight-add-le j k [] h = omega arith
  weight-add-le j k (e ∷ m) h = ground (arith, weight-add-le j k m h, weight-le j m, weight-le k m)
