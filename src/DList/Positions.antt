-- ===== src/DList/Positions.antt =====
-- List operations at a position, as the operations of the linked list are specified.
use wsn_test_platform.Shared.{
  ℕ, zero, suc, ◌-◌, ◌≤◌, List, [], ◌∷◌, ◌++◌, ◌≡◌, refl, ap, arith, min, ltb, if◌then◌else◌,
  length,
}

module _ {ℓ} {A : Type ℓ} where
  abbrev pub insert_at : ℕ → A → List A → List A
  insert_at zero y xs = y ∷ xs
  insert_at (suc i) y [] = y ∷ []
  insert_at (suc i) y (x ∷ xs) = x ∷ insert_at i y xs

  -- A position past the end changes nothing.
  abbrev pub delete_at : ℕ → List A → List A
  delete_at i [] = []
  delete_at zero (x ∷ xs) = xs
  delete_at (suc i) (x ∷ xs) = x ∷ delete_at i xs

  pub insert_at-append :
      (xs ys : List A) (y : A) → insert_at (length xs) y (xs ++ ys) ≡ xs ++ (y ∷ ys)
  insert_at-append [] ys y = refl
  insert_at-append (x ∷ xs) ys y = ap (λ r. x ∷ r) (insert_at-append xs ys y)

  pub insert_at_end : (xs : List A) (y : A) → xs ++ (y ∷ []) ≡ insert_at (length xs) y xs
  insert_at_end [] y = refl
  insert_at_end (x ∷ xs) y = ap (λ r. x ∷ r) (insert_at_end xs y)

  pub delete_at-append :
      (xs ys : List A) (y : A) → delete_at (length xs) (xs ++ (y ∷ ys)) ≡ xs ++ ys
  delete_at-append [] ys y = refl
  delete_at-append (x ∷ xs) ys y = ap (λ r. x ∷ r) (delete_at-append xs ys y)

  pub delete_at_past : (i : ℕ) (xs : List A) → length xs ≤ i → delete_at i xs ≡ xs
  delete_at_past i [] h = refl
  delete_at_past zero (x ∷ xs) h = absurd (omega arith)
  delete_at_past (suc i) (x ∷ xs) h = ap (λ r. x ∷ r) (delete_at_past i xs (omega arith))

-- Where `dlist_insert` puts the new element of a list of `n`: the index itself below `n`, in front
-- of the last element at index `n`, and the end past `n`.
unfoldable pub insert_position : ℕ → ℕ → ℕ
insert_position index n = if ltb n index then n else min index (n - 1)
