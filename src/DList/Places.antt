-- ===== src/DList/Places.antt =====
-- The list operations at the place where a walk of `dlist_get_node` has stopped.
use wsn_test_platform.Shared.{
  ℕ, some, ◌∷◌, ◌++◌, ◌≡◌, sym, ap₂, ◌∙◌, arith, length, get_elem?, set, get_elem?-append_length,
  set-append_length,
}
use wsn_test_platform.DList.Heap.{Ptr, Nodes}
use wsn_test_platform.DList.Cells.{Cells}
use wsn_test_platform.DList.Locate.{Located}
use wsn_test_platform.DList.Positions.{delete_at, delete_at-append}

module _ {A : Type 0} {h : Nodes A} {last b₀ p₀ c : Ptr} {xs : Cells A} {i : ℕ}
    (w : Located h last b₀ p₀ xs i c 0) where
  at_front : i ≡ length w.front
  at_front = omega (arith, w.index)

  pub Located-get_elem? : get_elem? xs i ≡ some (c, w.v)
  Located-get_elem? =
      ap₂ get_elem? w.splits at_front ∙ get_elem?-append_length w.front w.back (c, w.v)

  pub Located-delete_at : w.front ++ w.back ≡ delete_at i xs
  Located-delete_at =
      sym (ap₂ delete_at at_front w.splits ∙ delete_at-append w.front w.back (c, w.v))

  pub Located-set : (x : A) → w.front ++ ((c, x) ∷ w.back) ≡ set xs i (c, x)
  Located-set x = sym (
      ap₂ (λ ys j. set ys j (c, x)) w.splits at_front
      ∙ set-append_length w.front w.back (c, w.v) (c, x))
