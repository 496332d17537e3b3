-- ===== src/DList/Tests.antt =====
-- The theorems on common/dlist.c at a list of two nodes.
use wsn_test_platform.Shared.{
  ℕ, ◌+◌, true, none, some, [], ◌∷◌, Returns, Ret, ret_ok, ret_stop, ◌≢◌, refl, arith, length, ltb,
  if◌then◌else◌,
}
use wsn_test_platform.DList.{DList, dlist_insert, dlist_delete, dlist_destroy}
use wsn_test_platform.DList.Heap.{Memory, node, update}
use wsn_test_platform.DList.Cells.{Cells}
use wsn_test_platform.DList.Positions.{insert_at, insert_position}
use wsn_test_platform.DList.Segment.{nil, cons}
use wsn_test_platform.DList.Locate.{IsList}
use wsn_test_platform.DList.Insert.{InsertOk, dlist_insert-IsList}
use wsn_test_platform.DList.Delete.{DeleteOk, dlist_delete-IsList}
use wsn_test_platform.DList.Walk.{Emptied, dlist_destroy-Emptied}

abbrev two : Memory ℕ
two = record {
  nodes = update (update (λ a. none) 1 (some (node 0 2 10))) 2 (some (node 1 0 20));
  destroyed = [];
}

abbrev header : DList
header = record { head = 1; length = 2; data_destroy = true }

abbrev no_header : DList
no_header = record { head = 0; length = 0; data_destroy = true }

abbrev cells : Cells ℕ
cells = (1, 10) ∷ (2, 20) ∷ []

two-IsList : IsList two header cells
two-IsList = record {
  last = 2;
  chain =
      cons (record { ne_null = λ e. ground arith; holds = refl })
        (cons (record { ne_null = λ e. ground arith; holds = refl }) nil);
  distinct = (refl, (refl, tt));
  counted = refl;
}

none-IsList : IsList two no_header []
none-IsList = record { last = 0; chain = nil; distinct = tt; counted = refl }

cells_nonempty : cells ≢ []
cells_nonempty e = grind arith

dlist_insert-IsList_example :
    Returns
      (InsertOk two 3 cells (insert_at (insert_position 1 (length cells)) (3, 15) cells))
      (dlist_insert 3 (some header) 1 15 two)
dlist_insert-IsList_example =
    dlist_insert-IsList 1 3 15 two-IsList (λ e. ground arith) refl (omega arith)

dlist_delete-IsList_example :
    Returns (DeleteOk two header 0 cells) (dlist_delete (some header) 0 two)
dlist_delete-IsList_example = dlist_delete-IsList 0 two-IsList cells_nonempty (omega arith)

abbrev sum_to_ten : ℕ → ℕ → ℕ × Ret
sum_to_ten v total = (total + v, if ltb 9 v then ret_stop else ret_ok)

dlist_destroy-Emptied_example :
    Returns (λ u g. Emptied true two cells g) (dlist_destroy (some header) two)
dlist_destroy-Emptied_example = dlist_destroy-Emptied two-IsList
