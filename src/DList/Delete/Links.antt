-- ===== src/DList/Delete/Links.antt =====
-- The chain after `dlist_delete` has taken the node `c` out of `front ++ (c, v) ∷ back`.
use wsn_test_platform.Shared.{
  ◌+◌, ◌≤◌, true, false, none, some, ◌∷◌, ◌++◌, ◌≡◌, ◌⊎◌, inl, inr, refl, ◌∙◌, arith, ◌==◌, ==_self,
  if◌then◌else◌, length, length-append, ok,
}
use wsn_test_platform.DList.{DList, unlink_node, size_max}
use wsn_test_platform.DList.Heap.{Ptr, null, node, Nodes, Memory}
use wsn_test_platform.DList.Cells.{
  Cells, has, Distinct, has-append, Distinct-append_left, Distinct-append_right, Distinct-apart,
  Distinct-delete, differ,
}
use wsn_test_platform.DList.Segment.{
  Points, Seg, nil, cons, not_null, Seg-append, has-last, has-ne-null, Seg-last, Seg-relink,
  Seg-reprev,
}
use wsn_test_platform.DList.Locate.{IsList}
use wsn_test_platform.DList.Delete.Runs.{Unlinked, shortened, destroyed_with, unlink_node-Unlinked}

Before-front :
    {A : Type 0} {h : Nodes A} {b c z p : Ptr} {front : Cells A}
    → Seg h b c z p front
    → (b ≡ z) ⊎ (has b front ≡ true)
Before-front nil = inl refl
Before-front (cons e s) = inr (has-last (cons e s) (cc))

Before-Seg :
    {A : Type 0} {h : Nodes A} {b c z p : Ptr} {front : Cells A}
    → Seg h b c z p front
    → (b ≡ z) ⊎ ((b' : Ptr) × (w : A) × Points h b b' c w)
Before-Seg nil = inl refl
Before-Seg (cons e s) = inr (Seg-last (cons e s) (cc))

Behind-back :
    {A : Type 0} {h : Nodes A} {last c z q : Ptr} {back : Cells A}
    → Seg h last z c q back
    → (q ≡ z) ⊎ (has q back ≡ true)
Behind-back nil = inl refl
Behind-back (cons e s) = inr (ground arith)

Behind-Seg :
    {A : Type 0} {h : Nodes A} {last c z q : Ptr} {back : Cells A}
    → Seg h last z c q back
    → (q ≡ z) ⊎ ((q' : Ptr) × (u : A) × Points h q c q' u)
Behind-Seg nil = inl refl
Behind-Seg (cons {q} {v} e s) = inr (q, v, e)

-- An address of a chain is neither NULL nor on a chain apart from it.
apart_from :
    {A : Type 0} (a p : Ptr) (xs : Cells A)
    → (p ≡ null) ⊎ (has p xs ≡ true)
    → (a == null) ≡ false
    → has a xs ≡ false
    → (a == p) ≡ false
apart_from a p xs (inl e) n o = ground arith
apart_from a p xs (inr i) n o = ground (arith, differ p a xs i o)

module _ {A : Type 0} {h g : Nodes A} where
  rejoin_front :
      {b c q z p : Ptr} {front : Cells A}
      → Seg h b c z p front
      → Distinct front
      → has c front ≡ false
      → ((b' : Ptr) (w : A) → Points h b b' c w → g b ≡ some (node b' q w))
      → ((a : Ptr) → has a front ≡ true → (a == b) ≡ false → g a ≡ h a)
      → Seg g b q z (if c == p then q else p) front
  rejoin_front {c} nil dist out on off = rw (==_self c) nil
  rejoin_front {c} {q} {p} (cons e s) dist out on off =
      let cp : (c == p) ≡ false = ground arith in
      rw cp (
        Seg-relink q (cons e s) dist (cc)
          (λ b' w d. record { ne_null = d.ne_null; holds = on b' w d })
          λ a i n. off a i (ground arith))

  rejoin_back :
      {last b c q z : Ptr} {back : Cells A}
      → Seg h last z c q back
      → Distinct back
      → ((q' : Ptr) (u : A) → Points h q c q' u → g q ≡ some (node b q' u))
      → ((a : Ptr) → has a back ≡ true → (a == q) ≡ false → g a ≡ h a)
      → (last' : Ptr) × Seg g last' z b q back
  rejoin_back {b} nil dist on off = (b, nil)
  rejoin_back {last} {b} (cons e s) dist on off = (
    last,
    Seg-reprev b (cons e s) dist (cc) (λ q' u d. record { ne_null = d.ne_null; holds = on q' u d })
        λ a i n. off a i (ground arith),
  )

-- The list without the node `c`, which is freed and whose datum is handed to the callback.
pub record Deleted {A : Type 0} (m : Memory A) (l : DList) (c : Ptr) (v : A) (old new : Cells A)
    : Type 0 where
  pub header : DList
  pub after : Memory A
  pub runs : unlink_node l c m ≡ ok header after
  pub list : IsList after header new
  pub freed : after.nodes c ≡ none
  pub same : (a : Ptr) → has a old ≡ false → (a == null) ≡ false → after.nodes a ≡ m.nodes a
  pub logged : after.destroyed ≡ destroyed_with l.data_destroy m.destroyed v

module _ {A : Type 0} (m : Memory A) (l : DList) {last b c q : Ptr} {v : A}
    (front back : Cells A) where
  delete_between :
      (u : Unlinked m l b c q v)
      → ((a : Ptr)
          → (a == c) ≡ false
          → (a == b) ≡ false
          → (a == q) ≡ false
          → u.after.nodes a ≡ m.nodes a)
      → Seg m.nodes b c null l.head front
      → Seg m.nodes last null c q back
      → Distinct (front ++ ((c, v) ∷ back))
      → l.length ≡ length front + length back + 1
      → l.length ≤ size_max
      → (c == b) ≡ false
      → (c == q) ≡ false
      → Deleted m l c v (front ++ ((c, v) ∷ back)) (front ++ back)
  delete_between u off before behind dist counted fits cb cq =
      let apart : (a : Ptr) → has a front ≡ true → has a ((c, v) ∷ back) ≡ false =
        λ a i. Distinct-apart a front ((c, v) ∷ back) dist i in
      let dist_back = Distinct-append_right front ((c, v) ∷ back) dist in
      let c_out : has c front ≡ false = ground (arith, apart c) in
      let b_away : (a : Ptr) → (a == null) ≡ false → has a front ≡ false → (a == b) ≡ false =
        λ a n o. apart_from a b front (Before-front before) n o in
      let q_away : (a : Ptr) → (a == null) ≡ false → has a back ≡ false → (a == q) ≡ false =
        λ a n o. apart_from a q back (Behind-back behind) n o in
      let (last', back') =
        rejoin_back {g = u.after.nodes} {b = b} behind dist_back.1
          (λ q' w d. u.gone.off q (ground arith) ∙ u.links.prev q' w d)
          (λ a i n.
            off a (differ a c back i dist_back.0)
              (b_away a (has-ne-null a behind i) (ground (arith, apart a))) n) in
      record {
        header = shortened l c q;
        after = u.after;
        runs = u.runs;
        list = record {
          last = last';
          chain =
              Seg-append
                (rejoin_front before (Distinct-append_left front _ dist) c_out
                  (λ b' w d. u.gone.off b (ground arith) ∙ u.links.next b' w d)
                  λ a i n.
                    off a (ground (arith, apart a i)) n
                      (q_away a (has-ne-null a before i) (ground (arith, apart a i))))
                back';
          distinct = Distinct-delete front back c v dist;
          counted = omega (arith, counted, length-append front back);
        };
        freed = u.gone.at;
        same = λ a o n.
            off a (ground (arith, has-append a front ((c, v) ∷ back)))
              (b_away a n (ground (arith, has-append a front ((c, v) ∷ back))))
              (q_away a n (ground (arith, has-append a front ((c, v) ∷ back))));
        logged = u.logged;
      }

  -- `unlink_node` on a node of a list.
  pub unlink_node-Deleted :
      Seg m.nodes b c null l.head front
      → Points m.nodes c b q v
      → Seg m.nodes last null c q back
      → Distinct (front ++ ((c, v) ∷ back))
      → l.length ≡ length front + length back + 1
      → l.length ≤ size_max
      → Deleted m l c v (front ++ ((c, v) ∷ back)) (front ++ back)
  unlink_node-Deleted before e behind dist counted fits =
      let cn : (c == null) ≡ false = not_null e in
      let dist_back = Distinct-append_right front ((c, v) ∷ back) dist in
      let c_out : has c front ≡ false =
        ground (arith, Distinct-apart c front ((c, v) ∷ back) dist) in
      let cb = apart_from c b front (Before-front before) cn c_out in
      let cq = apart_from c q back (Behind-back behind) cn dist_back.0 in
      let u =
        unlink_node-Unlinked m l e (Before-Seg before) (Behind-Seg behind) cb cq
          (elim (Before-front before) [
            | inl n ↦ inr n
            | inr i ↦ inl (
                apart_from b q back (Behind-back behind) (has-ne-null b before i)
                  (ground (arith, Distinct-apart b front ((c, v) ∷ back) dist i)))
          ]) in
      delete_between u (λ a ac ab aq. u.gone.off a ac ∙ u.links.off a ab aq) before behind dist
        counted fits cb cq
