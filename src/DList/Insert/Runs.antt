-- ===== src/DList/Insert/Runs.antt =====
-- The writes of `dlist_insert` in its three cases, on a heap where the new node `n` is filled in
-- and the walk has stopped at the node `c`.
use wsn_test_platform.Shared.{ℕ, true, false, some, ◌≡◌, refl, arith, ◌==◌, ltb, ok}
use wsn_test_platform.DList.{DList, insert_node, dlist_get_node}
use wsn_test_platform.DList.Heap.{Ptr, null, node, Memory, write}
use wsn_test_platform.DList.Segment.{Points, load-ok, set_prev-ok, set_next-ok}

module _ {A : Type 0} (m : Memory A) (l : DList) (index : ℕ) {b c q n : Ptr} {v x : A} where
  -- In front of the first node of the list.
  pub insert_first-run :
      Points m.nodes n null null x
      → Points m.nodes c b q v
      → (l.head == null) ≡ false
      → (l.head == c) ≡ true
      → (n == c) ≡ false
      → ltb index l.length ≡ true
      → dlist_get_node l index true m ≡ ok c m
      → insert_node l index n m
        ≡ ok
            (record l { head = n })
            (write (write m n (some (node null c x))) c (some (node n q v)))
  unfolding insert_node
  insert_first-run new e some_head first apart small found =
      let m₂ = write m n (some (node null c x)) in
      let e₂ : Points m₂.nodes c b q v = record {
        ne_null = e.ne_null;
        holds = ground (arith, e.holds);
      } in
      rw (some_head, found, small, first, set_next-ok m new c, set_prev-ok m₂ e₂ n)

  -- Between the nodes `b` and `c`.
  pub insert_between-run :
      {b' : Ptr} {w : A}
      → Points m.nodes n null null x
      → Points m.nodes b b' c w
      → Points m.nodes c b q v
      → (l.head == null) ≡ false
      → (l.head == c) ≡ false
      → (n == b) ≡ false
      → (n == c) ≡ false
      → (b == c) ≡ false
      → ltb index l.length ≡ true
      → dlist_get_node l index true m ≡ ok c m
      → (g : Memory A) × (insert_node l index n m ≡ ok l g)
        × (g.destroyed ≡ m.destroyed)
        × (g.nodes n ≡ some (node b c x))
        × (g.nodes b ≡ some (node b' n w))
        × (g.nodes c ≡ some (node n q v))
        × ((a : Ptr)
            → (a == n) ≡ false
            → (a == b) ≡ false
            → (a == c) ≡ false
            → g.nodes a ≡ m.nodes a)
  unfolding insert_node
  insert_between-run {b'} {w} new d e some_head first nb nc bc small found =
      let m₂ = write m n (some (node b null x)) in
      let m₃ = write m₂ b (some (node b' n w)) in
      let m₄ = write m₃ n (some (node b c x)) in
      let c₂ : Points m₂.nodes c b q v = record {
        ne_null = e.ne_null;
        holds = ground (arith, e.holds);
      } in
      let b₂ : Points m₂.nodes b b' c w = record {
        ne_null = d.ne_null;
        holds = ground (arith, d.holds);
      } in
      let n₃ : Points m₃.nodes n b null x = record {
        ne_null = new.ne_null;
        holds = ground arith;
      } in
      let c₄ : Points m₄.nodes c b q v = record {
        ne_null = e.ne_null;
        holds = ground (arith, e.holds);
      } in
      (
        write m₄ c (some (node n q v)),
        rw (
          some_head,
          found,
          small,
          first,
          load-ok m e,
          set_prev-ok m new b,
          load-ok m₂ c₂,
          set_next-ok m₂ b₂ n,
          set_next-ok m₃ n₃ c,
          set_prev-ok m₄ c₄ n,
        ),
        refl,
        ground arith,
        ground arith,
        ground arith,
        λ a an ab ac. ground arith,
      )

  -- Behind the last node.
  pub insert_last-run :
      Points m.nodes n null null x
      → Points m.nodes c b q v
      → (l.head == null) ≡ false
      → (n == c) ≡ false
      → ltb index l.length ≡ false
      → dlist_get_node l index true m ≡ ok c m
      → insert_node l index n m
        ≡ ok l (write (write m c (some (node b n v))) n (some (node c null x)))
  unfolding insert_node
  insert_last-run new e some_head apart large found =
      let m₂ = write m c (some (node b n v)) in
      let n₂ : Points m₂.nodes n null null x = record {
        ne_null = new.ne_null;
        holds = ground (arith, new.holds);
      } in
      rw (some_head, found, large, set_next-ok m e n, set_prev-ok m₂ n₂ c)
