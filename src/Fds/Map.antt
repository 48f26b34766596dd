-- ===== src/Fds/Map.antt =====
-- std::map and std::unordered_map from numbers, as used by lib/tinykvm/linux/fds.cpp.
use tinykvm.Prelude.{
  ℕ, ◌+◌, ◌≤◌, ◌≡◌, refl, Bool, false, ◌||◌, List, [], ◌∷◌, ◌++◌, Option, none, some, ltb, ◌==◌,
  if◌then◌else◌, length, arith,
}

module _ {A : Type 0} where
  unfoldable pub find : List (ℕ × A) → ℕ → Option A
  find [] k = none
  find ((j, a) ∷ xs) k = if j == k then some a else find xs k

  -- The keys stay in order.
  unfoldable pub insert_or_assign : List (ℕ × A) → ℕ → A → List (ℕ × A)
  insert_or_assign [] k a = (k, a) ∷ []
  insert_or_assign ((j, b) ∷ xs) k a =
      let rest = insert_or_assign xs k a in
      if j == k then (k, a) ∷ xs else if ltb k j then (k, a) ∷ (j, b) ∷ xs else (j, b) ∷ rest

  unfoldable pub erase : List (ℕ × A) → ℕ → List (ℕ × A)
  erase [] k = []
  erase ((j, a) ∷ xs) k = let rest = erase xs k in if j == k then rest else (j, a) ∷ rest

  pub find-insert_or_assign :
      (xs : List (ℕ × A)) (k j : ℕ) (a : A)
      → find (insert_or_assign xs k a) j ≡ (if k == j then some a else find xs j)
  unfolding find insert_or_assign
  find-insert_or_assign [] k j a = refl
  find-insert_or_assign ((i, b) ∷ xs) k j a = ground (arith, find-insert_or_assign xs k j a)

  pub find-erase :
      (xs : List (ℕ × A)) (k j : ℕ) → find (erase xs k) j ≡ (if k == j then none else find xs j)
  unfolding find erase
  find-erase [] k j = ground arith
  find-erase ((i, b) ∷ xs) k j = ground (arith, find-erase xs k j)

  pub length-insert_or_assign :
      (xs : List (ℕ × A)) (k : ℕ) (a : A) → length (insert_or_assign xs k a) ≤ length xs + 1
  unfolding insert_or_assign
  length-insert_or_assign [] k a = omega arith
  length-insert_or_assign ((i, b) ∷ xs) k a = ground (arith, length-insert_or_assign xs k a)

  pub length-erase : (xs : List (ℕ × A)) (k : ℕ) → length (erase xs k) ≤ length xs
  unfolding erase
  length-erase [] k = omega arith
  length-erase ((i, b) ∷ xs) k = ground (arith, length-erase xs k)

-- A std::unordered_set of numbers; its order is that of insertion.
unfoldable pub contains : List ℕ → ℕ → Bool
contains [] k = false
contains (j ∷ xs) k = j == k || contains xs k

unfoldable pub insert : List ℕ → ℕ → List ℕ
insert xs k = if contains xs k then xs else xs ++ (k ∷ [])
