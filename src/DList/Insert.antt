-- ===== src/DList/Insert.antt =====
-- `dlist_insert`, `dlist_append` and `dlist_prepend`: the list afterwards.
mod Runs
mod Links
use wsn_test_platform.Shared.{
  ℕ, zero, suc, ◌+◌, ◌-◌, ◌%◌, ◌^◌, ◌≤◌, ◌<◌, Bool, true, false, Option, none, some, List, [], ◌∷◌,
  ◌++◌, ◌≡◌, ◌≢◌, ◌⊎◌, inl, inr, refl, sym, ap, subst, ◌∙◌, arith, ◌==◌, ltb, if◌then◌else◌, length,
  length-append, Bool-cases, Run, ok, Returns, returns, Ret, ret_ok, ret_oom, ret_invalid_params,
  min, append-nil, lt→ltb,
}
use wsn_test_platform.DList.{
  DList, insert_node, dlist_get_node, dlist_node_create, dlist_insert, dlist_append, dlist_prepend,
  size_max,
}
use wsn_test_platform.DList.Heap.{Ptr, null, node, Nodes, Memory, write, update, store}
use wsn_test_platform.DList.Cells.{Cells, has, Distinct, has-append, differ}
use wsn_test_platform.DList.Segment.{
  Points, Seg, nil, cons, not_null, Seg-frame, first-ne-null, not-mem_of_none,
}
use wsn_test_platform.DList.Locate.{IsList, Located, Seg-ends, dlist_get_node-last}
use wsn_test_platform.DList.Positions.{insert_at, insert_at-append, insert_at_end, insert_position}
use wsn_test_platform.DList.Insert.Links.{Inserted, insert_first, insert_between, insert_last}

-- The position at which the walk of `dlist_get_node` makes the insertion, in front of a node.
position_small :
    (index front back : ℕ) {left : ℕ}
    → index ≡ front + left
    → (left ≡ 0) ⊎ (back ≡ 0)
    → index < front + suc back + 1
    → insert_position index (front + suc back) ≡ front
unfolding insert_position
position_small index front back e i small = ground arith

position_large : (index n : ℕ) → n < index → insert_position index n ≡ n
unfolding insert_position
position_large index n h = ground arith

ends_length :
    {A : Type 0} (back : Cells A) {left : ℕ}
    → (left ≡ 0) ⊎ (back ≡ [])
    → (left ≡ 0) ⊎ (length back ≡ 0)
ends_length back (inl z) = inl z
ends_length back (inr e) = inr (ap length e)

abbrev InsertedAt : {A : Type 0} → Memory A → DList → ℕ → Ptr → A → Cells A → ℕ → Type 0
InsertedAt m l index n x xs i = Inserted m l index n xs (insert_at i (n, x) xs)

module _ {A : Type 0} (m : Memory A) (l : DList) (index : ℕ) {b c q n : Ptr} {v x : A} where
  insert_small :
      {last : Ptr} (front back : Cells A)
      → Points m.nodes n null null x
      → Seg m.nodes b c null l.head front
      → Points m.nodes c b q v
      → Seg m.nodes last null c q back
      → Distinct (front ++ ((c, v) ∷ back))
      → has n (front ++ ((c, v) ∷ back)) ≡ false
      → l.length ≡ length front + length back + 2
      → ltb index l.length ≡ true
      → dlist_get_node l index true m ≡ ok c m
      → InsertedAt m l index n x (front ++ ((c, v) ∷ back)) (length front)
  insert_small [] back new before e s dist out counted small found =
      insert_first m l index back new e s dist out (Seg-ends before) (omega arith) small found
  insert_small (y ∷ ys) back new before e s dist out counted small found =
      rw (insert_at-append (y ∷ ys))
        (insert_between m l index (y ∷ ys) back new before (cc) e s dist out counted small found)

  insert_large :
      (front back : Cells A)
      → Points m.nodes n null null x
      → Seg m.nodes b c null l.head front
      → Points m.nodes c b q v
      → back ≡ []
      → (l.head == null) ≡ false
      → Distinct (front ++ ((c, v) ∷ back))
      → has n (front ++ ((c, v) ∷ back)) ≡ false
      → l.length ≡ length front + length back + 2
      → ltb index l.length ≡ false
      → dlist_get_node l index true m ≡ ok c m
      → InsertedAt m l index n x (front ++ ((c, v) ∷ back)) (length (front ++ ((c, v) ∷ back)))
  insert_large front [] new before e none_behind some_head dist out counted large found =
      subst (Inserted m l index n (front ++ ((c, v) ∷ [])))
        (insert_at_end (front ++ ((c, v) ∷ [])) (n, x))
        (insert_last m l index front new before e some_head dist out (omega arith) large found)
  insert_large front (y ∷ back) new before e none_behind some_head dist out counted large found = cc

module _ {A : Type 0} (m : Memory A) (l : DList) (index : ℕ) {last c n : Ptr} {x : A} where
  insert_split :
      (xs : Cells A) {left : ℕ}
      → Points m.nodes n null null x
      → (w : Located m.nodes last null l.head xs index c left) → (l.head == null) ≡ false
      → Distinct (w.front ++ ((c, w.v) ∷ w.back))
      → has n (w.front ++ ((c, w.v) ∷ w.back)) ≡ false
      → l.length ≡ length w.front + length w.back + 2
      → dlist_get_node l index true m ≡ ok c m
      → InsertedAt m l index n x
          (w.front ++ ((c, w.v) ∷ w.back))
          (insert_position index (length (w.front ++ ((c, w.v) ∷ w.back))))
  insert_split xs new w some_head dist out counted found =
      let grown = length-append w.front ((c, w.v) ∷ w.back) in
      elim (Bool-cases (ltb index l.length)) [
        | inl small ↦
            subst (InsertedAt m l index n x _)
              (sym (
                ap (insert_position index) grown
                ∙ position_small index (length w.front) (length w.back) w.index
                    (ends_length w.back w.ends) (ground arith)))
              (insert_small m l index w.front w.back new w.before w.here w.behind dist out counted
                small found)
        | inr large ↦
            subst (InsertedAt m l index n x _)
              (sym (position_large index _ (ground (arith, grown))))
              (insert_large m l index w.front w.back new w.before w.here
                (elim w.ends [ inl z ↦ absurd (ground (arith, w.index)) | inr e ↦ e ]) some_head
                dist out counted large found)
      ]

  insert-Located :
      (xs : Cells A) {left : ℕ}
      → Points m.nodes n null null x
      → Located m.nodes last null l.head xs index c left
      → (l.head == null) ≡ false
      → Distinct xs
      → has n xs ≡ false
      → l.length ≡ length xs + 1
      → dlist_get_node l index true m ≡ ok c m
      → InsertedAt m l index n x xs (insert_position index (length xs))
  insert-Located xs new w some_head dist out counted found =
      subst (λ ys. InsertedAt m l index n x ys (insert_position index (length ys))) (sym w.splits)
        (insert_split xs new w some_head (subst Distinct w.splits dist)
          (subst (λ ys. has n ys ≡ false) w.splits out)
          (omega (arith, ap length w.splits, length-append w.front ((c, w.v) ∷ w.back))) found)

position_empty : (index : ℕ) → insert_position index 0 ≡ 0
unfolding insert_position
position_empty index = ground arith

-- All cases together, on a heap where the new node is filled in.
insert_node-Inserted :
    {A : Type 0} (m : Memory A) (l : DList) (index : ℕ) {last n : Ptr} {x : A} (xs : Cells A)
    → Points m.nodes n null null x
    → Seg m.nodes last null null l.head xs
    → Distinct xs
    → has n xs ≡ false
    → l.length ≡ length xs + 1
    → InsertedAt m l index n x xs (insert_position index (length xs))
unfolding insert_node
insert_node-Inserted m l index {n} {x} [] new s dist out counted = rw position_empty (record {
  header = record l { head = n };
  after = m;
  runs = rw (Seg-ends s);
  list = record { last = n; chain = cons new nil; distinct = (refl, tt); counted = counted };
  same = λ a an o. refl;
  kept = refl;
})
insert_node-Inserted m l index (y ∷ ys) new s dist out counted =
    let (c, left, w, found) = dlist_get_node-last m l index s (cc) (omega arith) in
    insert-Located m l index (y ∷ ys) new w (first-ne-null s (cc)) dist out counted found

-- What `dlist_insert` makes of a list: it succeeds, the new list is `new`, and outside the node at
-- `n` and the nodes of `old` the heap is as before.
pub record InsertOk {A : Type 0} (m : Memory A) (n : Ptr) (old new : Cells A)
    (out : Ret × Option DList) (g : Memory A) : Type 0 where
  pub result : out.0 ≡ ret_ok
  pub header : DList
  pub header_eq : out.1 ≡ some header
  pub list : IsList g header new
  pub same : (a : Ptr) → (a == n) ≡ false → has a old ≡ false → g.nodes a ≡ m.nodes a
  pub kept : g.destroyed ≡ m.destroyed

module _ {A : Type 0} {m : Memory A} {l : DList} {xs : Cells A} (index : ℕ) (fresh : Ptr)
    (x : A) where
  -- On a list of fewer than 2 ^ 32 - 1 elements and given the address of unused memory,
  -- `dlist_insert` puts the new element at the position
  -- `insert_position index (length xs)`, keeps the order of the others and the back links, and
  -- touches no other node.
  pub dlist_insert-IsList :
      IsList m l xs
      → fresh ≢ null
      → m.nodes fresh ≡ none
      → length xs < size_max
      → Returns
          (InsertOk m fresh xs (insert_at (insert_position index (length xs)) (fresh, x) xs))
          (dlist_insert fresh (some l) index x m)
  unfolding dlist_insert dlist_node_create
  dlist_insert-IsList is ne unused room =
      let m₁ = write m fresh (some (node null null x)) in
      let l₁ = record l { length = (l.length + 1) % 2 ^ 32 } in
      let out = not-mem_of_none fresh is.chain unused in
      let chain₁ : Seg m₁.nodes is.last null null l.head xs =
        Seg-frame is.chain λ a i. ground (arith, differ a fresh xs i out) in
      let done : InsertedAt m₁ l₁ index fresh x xs (insert_position index (length xs)) =
        insert_node-Inserted m₁ l₁ index xs (record { ne_null = ne; holds = ground arith }) chain₁
          is.distinct out (omega (arith, is.counted)) in
      let not_null : (fresh == null) ≡ false = ground arith in
      rw (not_null, not_null, done.runs)
        (returns (record {
          result = refl;
          header = done.header;
          header_eq = refl;
          list = done.list;
          same = λ a an o. ground (arith, done.same a an o);
          kept = done.kept;
        }))

module _ {A : Type 0} {m : Memory A} {l : DList} {xs : Cells A} (fresh : Ptr) (x : A) where
  -- On a list of fewer than 2 ^ 32 - 1 elements and given the address of unused memory,
  -- `dlist_append` puts the new element behind all others, keeps
  -- their order and the back links, and touches no other node.
  pub dlist_append-IsList :
      IsList m l xs
      → fresh ≢ null
      → m.nodes fresh ≡ none
      → length xs < size_max
      → Returns (InsertOk m fresh xs (xs ++ ((fresh, x) ∷ []))) (dlist_append fresh (some l) x m)
  unfolding dlist_append insert_position
  dlist_append-IsList is ne unused room =
      let inserted = dlist_insert-IsList size_max fresh x is ne unused room in
      rw (insert_at_end xs (fresh, x)) (
        subst
          (λ k.
            Returns (InsertOk m fresh xs (insert_at k (fresh, x) xs))
              (dlist_insert fresh (some l) size_max x m))
          (ap (λ b. if b then length xs else min size_max (length xs - 1))
            (lt→ltb (length xs) size_max room))
          inserted)
