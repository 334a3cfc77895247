-- ===== src/Cheddar/Minters.antt =====
-- Who may mint: add_minter, remove_minter and the checks of the mint methods (cheddar/src/lib.rs).
use mathlib.Core.List.{drop_last}
use cheddar.Prelude.{
  ℕ, zero, suc, ◌+◌, ◌≤◌, ◌≡◌, ◌≢◌, refl, true, false, not, some, List, [], ◌∷◌, ◌++◌, ok, arith,
  Option-cases, inl, inr, if◌then◌else◌, ◌==◌, set, get_elem?,
}
use cheddar.Near.{Env, AccountId}
use cheddar.Cheddar.{Contract}
use cheddar.Cheddar.Internal.{contains}
use cheddar.Cheddar.Methods.{add_minter, remove_minter, position, swap_remove, last_or}

-- How often an account stands in the list.
unfoldable pub count : AccountId → List AccountId → ℕ
count a [] = 0
count a (x ∷ xs) = (if x == a then 1 else 0) + count a xs

contains-count : (a : AccountId) (xs : List AccountId) → contains xs a ≡ not (count a xs == 0)
unfolding contains count
contains-count a [] = refl
contains-count a (x ∷ xs) = ground (arith, contains-count a xs)

count-append :
    (a : AccountId) (xs ys : List AccountId) → count a (xs ++ ys) ≡ count a xs + count a ys
unfolding count
count-append a [] ys = omega arith
count-append a (x ∷ xs) ys = omega (arith, count-append a xs ys)

-- Taking off the end loses the last element.
count-drop_last :
    (a x : AccountId) (xs : List AccountId)
    → count a (drop_last (x ∷ xs)) + (if last_or x xs == a then 1 else 0) ≡ count a (x ∷ xs)
unfolding count
count-drop_last a x [] = ground arith
count-drop_last a x (y ∷ ys) = ground (arith, count-drop_last a y ys)

count-set :
    (a v : AccountId) (xs : List AccountId) (i : ℕ) {old : AccountId}
    → get_elem? xs i ≡ some old
    → count a (set xs i v) + (if old == a then 1 else 0) ≡ count a xs + (if v == a then 1 else 0)
unfolding count
count-set a v [] i e = cc
count-set a v (x ∷ xs) zero e = ground arith
count-set a v (x ∷ xs) (suc i) e = ground (arith, count-set a v xs i e)

last_or_self : (y : AccountId) (ys : List AccountId) → last_or (last_or y ys) ys ≡ last_or y ys
last_or_self y [] = refl
last_or_self y (z ∷ zs) = refl

last_or-set :
    (x : AccountId) (xs : List AccountId) (i : ℕ)
    → last_or x (set xs i (last_or x xs)) ≡ last_or x xs
last_or-set x [] i = refl
last_or-set x (y ∷ ys) zero = last_or_self y ys
last_or-set x (y ∷ ys) (suc i) = last_or-set y ys i

-- swap_remove loses one copy of the account at the index, and no other.
count-swap_remove :
    (a : AccountId) (xs : List AccountId) (i : ℕ) {old : AccountId}
    → get_elem? xs i ≡ some old
    → count a (swap_remove xs i) + (if old == a then 1 else 0) ≡ count a xs
unfolding swap_remove
count-swap_remove a [] i e = cc
count-swap_remove a (x ∷ xs) zero e = ground (
  arith,
  count-set a (last_or x xs) (x ∷ xs) zero e,
  count-drop_last a (last_or x xs) xs,
  last_or_self x xs,
)
count-swap_remove a (x ∷ xs) (suc i) e = ground (
  arith,
  count-set a (last_or x xs) (x ∷ xs) (suc i) e,
  count-drop_last a x (set xs i (last_or x xs)),
  last_or-set x xs i,
)

get_elem?-position :
    (a : AccountId) (xs : List AccountId) (i : ℕ) → position xs a ≡ some i → get_elem? xs i ≡ some a
unfolding position
get_elem?-position a [] i e = cc
get_elem?-position a (x ∷ xs) zero e = ground arith
get_elem?-position a (x ∷ xs) (suc i) e = ground (arith, get_elem?-position a xs i)

-- Every minter stands in the list once.
abbrev pub IsDistinct : List AccountId → Type 0
IsDistinct xs = (a : AccountId) → count a xs ≤ 1

-- Removing a minter takes away exactly that account's right to mint, whatever the order of the
-- list becomes, and leaves every minter in the list once.
pub remove_minter-contains :
    (env : Env) (a : AccountId) (c : Contract) {c' : Contract}
    → IsDistinct c.minters
    → remove_minter env a c ≡ ok c'
    → (contains c'.minters a ≡ false)
      × ((b : AccountId) → b ≢ a → contains c'.minters b ≡ contains c.minters b)
      × IsDistinct c'.minters
unfolding remove_minter
remove_minter-contains env a c {c'} once e = elim (Option-cases (position c.minters a)) [
  | inl missing ↦ absurd (ground arith)
  | inr (i, found) ↦
      let at = get_elem?-position a c.minters i found in
      let gone : c'.minters ≡ swap_remove c.minters i = ground arith in
      rw gone (
        ground (
          arith,
          contains-count a (swap_remove c.minters i),
          count-swap_remove a c.minters i at,
          once a,
        ),
        (λ b ne. ground (
          arith,
          contains-count b (swap_remove c.minters i),
          contains-count b c.minters,
          count-swap_remove b c.minters i at,
        )),
        λ b. omega (arith, count-swap_remove b c.minters i at, once b),
      )
]

-- Adding a minter gives exactly that account the right to mint, and only if it was no minter.
pub add_minter-contains :
    (env : Env) (a : AccountId) (c : Contract) {c' : Contract}
    → IsDistinct c.minters
    → add_minter env a c ≡ ok c'
    → (contains c.minters a ≡ false)
      × (contains c'.minters a ≡ true)
      × ((b : AccountId) → b ≢ a → contains c'.minters b ≡ contains c.minters b)
      × IsDistinct c'.minters
unfolding add_minter count
add_minter-contains env a c {c'} once e =
    let more : c'.minters ≡ c.minters ++ a ∷ [] = ground arith in
    let new : contains c.minters a ≡ false = ground arith in
    rw more (
      new,
      ground (arith, contains-count a (c.minters ++ a ∷ []), count-append a c.minters (a ∷ [])),
      (λ b ne. ground (
        arith,
        contains-count b (c.minters ++ a ∷ []),
        contains-count b c.minters,
        count-append b c.minters (a ∷ []),
      )),
      λ b. ground (arith, count-append b c.minters (a ∷ []), once b, contains-count a c.minters),
    )
