-- ===== src/DList/Access.antt =====
-- `dlist_get_by_index`, `dlist_set_by_index`, and the answers that do not need a list.
use wsn_test_platform.Shared.{
  ℕ, ◌≤◌, ◌<◌, false, Option, none, some, [], ◌∷◌, ◌++◌, ◌≡◌, ◌≢◌, refl, sym, ap, subst, ◌∙◌, arith,
  ◌==◌, length, length-append, get_elem?, get_elem?_past, set, ok, Returns, returns, Ret, ret_ok,
  ret_fail,
}
use native.Mathlib.Decide.{dec_lt}
use wsn_test_platform.DList.{DList, dlist_get_by_index, dlist_set_by_index}
use wsn_test_platform.DList.Heap.{Ptr, null, node, Memory, write}
use wsn_test_platform.DList.Cells.{
  has-append, Cells, has, Distinct, Distinct-append_right, Distinct-apart, Distinct-insert,
  Distinct-delete, differ,
}
use wsn_test_platform.DList.Segment.{
  Points, Seg, cons, not_null, load-ok, set_item-ok, Seg-frame, Seg-append,
}
use wsn_test_platform.DList.Locate.{IsList, dlist_get_node-found, dlist_get_node-none}
use wsn_test_platform.DList.Places.{Located-get_elem?, Located-set}

-- The answer of `dlist_get_by_index`, from the element at the index.
abbrev pub get_answer : {A : Type 0} → Option (Ptr × A) → Ret × Option A
get_answer none = (ret_fail, none)
get_answer (some (p, v)) = (ret_ok, some v)

-- The answer of `dlist_set_by_index`.
abbrev pub set_answer : {A : Type 0} → Option (Ptr × A) → Ret
set_answer none = ret_fail
set_answer (some _) = ret_ok

-- The list with a new datum at an index, in the node that is there; past the end nothing changes.
abbrev pub set_datum : {A : Type 0} → Option (Ptr × A) → ℕ → A → Cells A → Cells A
set_datum none i x xs = xs
set_datum (some (p, v)) i x xs = set xs i (p, x)

module _ {A : Type 0} {m : Memory A} {l : DList} {xs : Cells A} (index : ℕ) where
  get_inside :
      IsList m l xs
      → index < length xs
      → dlist_get_by_index (some l) index m ≡ ok (get_answer (get_elem? xs index)) m
  unfolding dlist_get_by_index
  get_inside is inside =
      let (c, w, found) =
        dlist_get_node-found m l index is.chain inside (omega (arith, is.counted)) in
      let cn : (c == null) ≡ false = not_null w.here in
      rw (found, cn, load-ok m w.here, Located-get_elem? w)

  get_outside :
      IsList m l xs
      → xs ≢ []
      → length xs ≤ index
      → dlist_get_by_index (some l) index m ≡ ok (get_answer (get_elem? xs index)) m
  unfolding dlist_get_by_index
  get_outside is ne outside = rw (
    dlist_get_node-none m l index is.chain ne outside (omega (arith, is.counted)),
    get_elem?_past xs index outside,
  )

  -- On a list with elements `dlist_get_by_index` gives the datum at the index, fails past the end,
  -- and writes nothing.
  pub dlist_get_by_index-get_elem? :
      IsList m l xs
      → xs ≢ []
      → dlist_get_by_index (some l) index m ≡ ok (get_answer (get_elem? xs index)) m
  dlist_get_by_index-get_elem? is ne = elim (dec_lt index (length xs)) [
    | yes inside ↦ get_inside is inside
    | no outside ↦ get_outside is ne (omega arith)
  ]

-- What `dlist_set_by_index` makes of a list.
pub record SetOk {A : Type 0} (m : Memory A) (l : DList) (index : ℕ) (x : A) (xs : Cells A)
    (out : Ret) (g : Memory A) : Type 0 where
  pub result : out ≡ set_answer (get_elem? xs index)
  pub list : IsList g l (set_datum (get_elem? xs index) index x xs)
  pub same : (a : Ptr) → has a xs ≡ false → g.nodes a ≡ m.nodes a
  pub kept : g.destroyed ≡ m.destroyed

module _ {A : Type 0} {m : Memory A} {l : DList} {last b c q : Ptr} {v : A} (x : A)
    (front back : Cells A) where
  -- The list after a write of the datum at `c`.
  written-IsList :
      Seg m.nodes b c null l.head front
      → Points m.nodes c b q v
      → Seg m.nodes last null c q back
      → Distinct (front ++ ((c, v) ∷ back))
      → l.length ≡ length (front ++ ((c, v) ∷ back))
      → IsList (write m c (some (node b q x))) l (front ++ ((c, x) ∷ back))
  written-IsList before e behind dist counted =
      let dist_back = Distinct-append_right front ((c, v) ∷ back) dist in
      let c_out : has c front ≡ false =
        ground (arith, Distinct-apart c front ((c, v) ∷ back) dist) in
      record {
        last = last;
        chain = Seg-append (Seg-frame before λ a i. ground (arith, differ a c front i c_out)) (
            cons (record { ne_null = e.ne_null; holds = ground arith })
              (Seg-frame behind λ a i. ground (arith, differ a c back i dist_back.0)));
        distinct =
            Distinct-insert front back c x (Distinct-delete front back c v dist)
              (ground (arith, has-append c front back, dist_back.0));
        counted = omega (
          arith,
          counted,
          length-append front ((c, v) ∷ back),
          length-append front ((c, x) ∷ back),
        );
      }

module _ {A : Type 0} {m : Memory A} {l : DList} {xs : Cells A} (index : ℕ) (x : A) where
  set_inside :
      IsList m l xs
      → index < length xs
      → Returns (SetOk m l index x xs) (dlist_set_by_index (some l) index x m)
  unfolding dlist_set_by_index
  set_inside is inside =
      let (c, w, found) =
        dlist_get_node-found m l index is.chain inside (omega (arith, is.counted)) in
      let cn : (c == null) ≡ false = not_null w.here in
      let got = Located-get_elem? w in
      let list =
        written-IsList x w.front w.back w.before w.here w.behind
          (subst Distinct w.splits is.distinct) (is.counted ∙ ap length w.splits) in
      rw (found, cn, set_item-ok m w.here x)
        (returns (record {
          result = ap set_answer (sym got);
          list =
              subst (λ o. IsList (write m c (some (node w.b w.q x))) l (set_datum o index x xs))
                (sym got)
                (subst (IsList (write m c (some (node w.b w.q x))) l) (Located-set w x) list);
          same = λ a o. ground (
            arith,
            subst (λ ys. has a ys ≡ false) w.splits o,
            has-append a w.front ((c, w.v) ∷ w.back),
          );
          kept = refl;
        }))

  set_outside :
      IsList m l xs
      → xs ≢ []
      → length xs ≤ index
      → Returns (SetOk m l index x xs) (dlist_set_by_index (some l) index x m)
  unfolding dlist_set_by_index
  set_outside is ne outside =
      let got = get_elem?_past xs index outside in
      rw (dlist_get_node-none m l index is.chain ne outside (omega (arith, is.counted))) (
        returns
          (record { result = rw got refl; list = rw got is; same = λ a o. refl; kept = refl }))

  -- On a list with elements `dlist_set_by_index` replaces the datum at the index in place, fails
  -- past the end, and touches no other node.
  pub dlist_set_by_index-IsList :
      IsList m l xs
      → xs ≢ []
      → Returns (SetOk m l index x xs) (dlist_set_by_index (some l) index x m)
  dlist_set_by_index-IsList is ne = elim (dec_lt index (length xs)) [
    | yes inside ↦ set_inside is inside
    | no outside ↦ set_outside is ne (omega arith)
  ]
