-- ===== src/DList/Client.antt =====
-- The list of common/dlist.c as a client sees it: the sequence of the data, without the nodes'
-- addresses.
use wsn_test_platform.Shared.{
  ℕ, zero, suc, Bool, Option, none, some, List, [], ◌∷◌, ◌≡◌, refl, ap, if◌then◌else◌,
}
use wsn_test_platform.DList.Cells.{Cells}
use wsn_test_platform.DList.Positions.{delete_at}
use wsn_test_platform.DList.Walk.{find_index}

module _ {A : Type 0} where
  abbrev pub data_of : Cells A → List A
  data_of [] = []
  data_of ((p, v) ∷ xs) = v ∷ data_of xs

  -- The first datum that `compare` accepts, or the length
  abbrev pub find_datum : (A → Bool) → List A → ℕ
  find_datum compare [] = 0
  find_datum compare (v ∷ vs) = if compare v then 0 else suc (find_datum compare vs)

  -- `dlist_delete`: undefined on an empty list, and no change at an index past the end
  abbrev pub delete_datum : ℕ → List A → Option (List A)
  delete_datum index [] = none
  delete_datum index (v ∷ vs) = some (delete_at index (v ∷ vs))

  -- Searching the nodes is searching the data.
  pub find_index-data_of :
      (compare : A → Bool) (xs : Cells A) → find_index compare xs ≡ find_datum compare (data_of xs)
  find_index-data_of compare [] = refl
  find_index-data_of compare ((p, v) ∷ xs) = rw (find_index-data_of compare xs)

  -- Deleting a node deletes its datum and no other.
  pub data_of-delete_at :
      (i : ℕ) (xs : Cells A) → data_of (delete_at i xs) ≡ delete_at i (data_of xs)
  data_of-delete_at i [] = refl
  data_of-delete_at zero ((p, v) ∷ xs) = refl
  data_of-delete_at (suc i) ((p, v) ∷ xs) = ap (λ r. v ∷ r) (data_of-delete_at i xs)
