-- ===== src/DList/Insert/Links.antt =====
-- The chain after each case of `dlist_insert`. The list was `front ++ (c, v) ∷ back`, and `n` is
-- the address of the new node.
use wsn_test_platform.Shared.{
  ℕ, ◌+◌, true, false, some, [], ◌∷◌, ◌++◌, ◌≡◌, ◌≢◌, refl, arith, ◌==◌, ltb, length, length-append,
  ok, append-nil,
}
use wsn_test_platform.DList.{DList, insert_node, dlist_get_node}
use wsn_test_platform.DList.Heap.{Ptr, null, node, Nodes, Memory, write}
use wsn_test_platform.DList.Cells.{
  Cells, has, Distinct, has-append, Distinct-append_left, Distinct-append_right, Distinct-apart,
  Distinct-insert, differ,
}
use wsn_test_platform.DList.Segment.{
  Points, Seg, nil, cons, not_null, Seg-frame, Seg-append, has-last, has-first, first-ne-null,
  Seg-last, Seg-relink,
}
use wsn_test_platform.DList.Locate.{IsList}
use wsn_test_platform.DList.Insert.Runs.{insert_first-run, insert_between-run, insert_last-run}

module _ {A : Type 0} {h g : Nodes A} {last b b' c q n p : Ptr} {v w x : A} where
  -- The chain on a heap `g` that differs from `h` at `n`, at the node `b` before it and at the node
  -- `c` behind it.
  between_chain :
      (front back : Cells A)
      → Points h b b' c w
      → Seg h b c null p front
      → front ≢ []
      → Points h c b q v
      → Seg h last null c q back
      → Distinct (front ++ ((c, v) ∷ back))
      → has n (front ++ ((c, v) ∷ back)) ≡ false
      → Points g n b c x
      → g b ≡ some (node b' n w)
      → g c ≡ some (node n q v)
      → ((a : Ptr) → (a == n) ≡ false → (a == b) ≡ false → (a == c) ≡ false → g a ≡ h a)
      → Seg g last null null p (front ++ ((n, x) ∷ (c, v) ∷ back))
  between_chain front back d before ne e s dist out new gb gc same =
      let apart : (a : Ptr) → has a front ≡ true → has a ((c, v) ∷ back) ≡ false =
        λ a i. Distinct-apart a front ((c, v) ∷ back) dist i in
      let out_front : has n front ≡ false = ground (arith, has-append n front ((c, v) ∷ back)) in
      let out_back : has n ((c, v) ∷ back) ≡ false =
        ground (arith, has-append n front ((c, v) ∷ back)) in
      let b_out : has b ((c, v) ∷ back) ≡ false = apart b (has-last before ne) in
      let c_out = (Distinct-append_right front ((c, v) ∷ back) dist).0 in
      Seg-append
        (Seg-relink n before (Distinct-append_left front _ dist) ne
          (λ b'' v'' pt. record { ne_null = d.ne_null; holds = relinked b'' v'' pt.holds })
          λ a i r. same a (differ a n front i out_front) (ground arith) (ground (arith, apart a i)))
        (cons new (
          cons (record { ne_null = e.ne_null; holds = gc })
            (Seg-frame s λ a i.
              same a (differ a n back i (ground arith)) (differ a b back i (ground arith))
                (differ a c back i c_out))))
    where
      relinked : (b'' : Ptr) (v'' : A) → h b ≡ some (node b'' c v'') → g b ≡ some (node b'' n v'')
      relinked b'' v'' r = ground (arith, d.holds)

-- What `insert_node` makes of the memory `m`.
pub record Inserted {A : Type 0} (m : Memory A) (l : DList) (index : ℕ) (n : Ptr)
    (old new : Cells A) : Type 0 where
  pub header : DList
  pub after : Memory A
  pub runs : insert_node l index n m ≡ ok header after
  pub list : IsList after header new
  pub same : (a : Ptr) → (a == n) ≡ false → has a old ≡ false → after.nodes a ≡ m.nodes a
  pub kept : after.destroyed ≡ m.destroyed

module _ {A : Type 0} (m : Memory A) (l : DList) (index : ℕ) {last b c q n : Ptr} {v x : A} where
  pub insert_first :
      (back : Cells A)
      → Points m.nodes n null null x
      → Points m.nodes c b q v
      → Seg m.nodes last null c q back
      → Distinct ((c, v) ∷ back)
      → has n ((c, v) ∷ back) ≡ false
      → l.head ≡ c
      → l.length ≡ length back + 2
      → ltb index l.length ≡ true
      → dlist_get_node l index true m ≡ ok c m
      → Inserted m l index n ((c, v) ∷ back) ((n, x) ∷ (c, v) ∷ back)
  insert_first back new e s dist out first counted small found =
      let nh = not_null e in
      record {
        header = record l { head = n };
        after = write (write m n (some (node null c x))) c (some (node n q v));
        runs =
            insert_first-run m l index new e (ground arith) (ground arith) (ground arith) small
              found;
        list = record {
          last = last;
          chain =
              cons (record { ne_null = new.ne_null; holds = ground arith })
                (cons (record { ne_null = e.ne_null; holds = ground arith })
                  (Seg-frame s λ a i. ground (arith, dist.0)));
          distinct = (out, dist);
          counted = omega (arith, counted);
        };
        same = λ a an o. ground arith;
        kept = refl;
      }

  between_Inserted :
      (front back : Cells A) {b' : Ptr} {w : A}
      → Points m.nodes n null null x
      → Points m.nodes b b' c w
      → Seg m.nodes b c null l.head front
      → front ≢ []
      → Points m.nodes c b q v
      → Seg m.nodes last null c q back
      → Distinct (front ++ ((c, v) ∷ back))
      → has n (front ++ ((c, v) ∷ back)) ≡ false
      → l.length ≡ length front + length back + 2
      → ((g : Memory A) × (insert_node l index n m ≡ ok l g)
          × (g.destroyed ≡ m.destroyed)
          × (g.nodes n ≡ some (node b c x))
          × (g.nodes b ≡ some (node b' n w))
          × (g.nodes c ≡ some (node n q v))
          × ((a : Ptr)
              → (a == n) ≡ false
              → (a == b) ≡ false
              → (a == c) ≡ false
              → g.nodes a ≡ m.nodes a))
      → Inserted m l index n (front ++ ((c, v) ∷ back)) (front ++ ((n, x) ∷ (c, v) ∷ back))
  between_Inserted front back new d before ne e s dist out counted
        (g, runs, kept, gn, gb, gc, same) =
      record {
        header = l;
        after = g;
        runs = runs;
        list = record {
          last = last;
          chain =
              between_chain front back d before ne e s dist out
                (record { ne_null = new.ne_null; holds = gn }) gb gc same;
          distinct = Distinct-insert front ((c, v) ∷ back) n x dist out;
          counted = omega (arith, counted, length-append front ((n, x) ∷ (c, v) ∷ back));
        };
        same = λ a an o.
            same a an
              (ground
                (arith, differ b a front (has-last before ne), has-append a front ((c, v) ∷ back)))
              (ground (arith, has-append a front ((c, v) ∷ back)));
        kept = kept;
      }

  pub insert_between :
      (front back : Cells A)
      → Points m.nodes n null null x
      → Seg m.nodes b c null l.head front
      → front ≢ []
      → Points m.nodes c b q v
      → Seg m.nodes last null c q back
      → Distinct (front ++ ((c, v) ∷ back))
      → has n (front ++ ((c, v) ∷ back)) ≡ false
      → l.length ≡ length front + length back + 2
      → ltb index l.length ≡ true
      → dlist_get_node l index true m ≡ ok c m
      → Inserted m l index n (front ++ ((c, v) ∷ back)) (front ++ ((n, x) ∷ (c, v) ∷ back))
  insert_between front back new before ne e s dist out counted small found =
      let (b', w, d) = Seg-last before ne in
      let out_front : has n front ≡ false = ground (arith, has-append n front ((c, v) ∷ back)) in
      let b_out : has b ((c, v) ∷ back) ≡ false =
        Distinct-apart b front ((c, v) ∷ back) dist (has-last before ne) in
      let head_out : has l.head ((c, v) ∷ back) ≡ false =
        Distinct-apart l.head front ((c, v) ∷ back) dist (has-first before ne) in
      between_Inserted front back new d before ne e s dist out counted (
        insert_between-run m l index new d e (first-ne-null before ne) (ground arith)
          (ground (arith, differ b n front (has-last before ne) out_front))
          (ground (arith, has-append n front ((c, v) ∷ back))) (ground arith) small found)

module _ {A : Type 0} (m : Memory A) (l : DList) (index : ℕ) {b c q n : Ptr} {v x : A} where
  pub insert_last :
      (front : Cells A)
      → Points m.nodes n null null x
      → Seg m.nodes b c null l.head front
      → Points m.nodes c b q v
      → (l.head == null) ≡ false
      → Distinct (front ++ ((c, v) ∷ []))
      → has n (front ++ ((c, v) ∷ [])) ≡ false
      → l.length ≡ length front + 2
      → ltb index l.length ≡ false
      → dlist_get_node l index true m ≡ ok c m
      → Inserted m l index n (front ++ ((c, v) ∷ [])) ((front ++ ((c, v) ∷ [])) ++ ((n, x) ∷ []))
  insert_last front new before e some_head dist out counted large found =
      let nc : (n == c) ≡ false = ground (arith, has-append n front ((c, v) ∷ [])) in
      let n_out : has n front ≡ false = ground (arith, has-append n front ((c, v) ∷ [])) in
      record {
        header = l;
        after = write (write m c (some (node b n v))) n (some (node c null x));
        runs = insert_last-run m l index new e some_head nc large found;
        list = record {
          last = n;
          chain =
              Seg-append
                (Seg-append
                  (Seg-frame before λ a i.
                    ground (
                      arith,
                      differ a n front i n_out,
                      Distinct-apart a front ((c, v) ∷ []) dist i,
                    ))
                  (cons (record { ne_null = e.ne_null; holds = ground arith }) nil))
                (cons (record { ne_null = new.ne_null; holds = ground arith }) nil);
          distinct =
              Distinct-insert (front ++ ((c, v) ∷ [])) [] n x (rw append-nil dist)
                (rw append-nil out);
          counted = omega (
            arith,
            counted,
            length-append (front ++ ((c, v) ∷ [])) ((n, x) ∷ []),
            length-append front ((c, v) ∷ []),
          );
        };
        same = λ a an o. ground (arith, has-append a front ((c, v) ∷ []));
        kept = refl;
      }
