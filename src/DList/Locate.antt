-- ===== src/DList/Locate.antt =====
-- `dlist_get_node`: where its walk stops, and how the list splits there.
use wsn_test_platform.Shared.{
  ℕ, zero, suc, ◌+◌, ◌-◌, ◌≤◌, ◌<◌, Bool, true, false, not, ◌&&◌, [], ◌∷◌, ◌++◌, ◌≡◌, ◌≢◌, ◌⊎◌, inl,
  inr, refl, ap, subst, ◌∙◌, arith, ◌==◌, ltb, lt→ltb, if◌then◌else◌, length, length-append, ok,
  fault,
}
use native.Mathlib.Numerals.{add-one}
use wsn_test_platform.DList.{DList, get_node_loop, dlist_get_node}
use wsn_test_platform.DList.Heap.{Ptr, null, Nodes, Memory, load}
use wsn_test_platform.DList.Cells.{Cells, Distinct}
use wsn_test_platform.DList.Segment.{Points, Seg, nil, cons, not_null, load-ok}

-- The heap holds the list `xs`, and `l` is its header.
pub record IsList {A : Type 0} (m : Memory A) (l : DList) (xs : Cells A) : Type 0 where
  pub last : Ptr
  pub chain : Seg m.nodes last null null l.head xs
  pub distinct : Distinct xs
  pub counted : l.length ≡ length xs

-- The walk for index `i` stops at `c` with `left` steps undone.
pub record Located {A : Type 0} (h : Nodes A) (last b₀ p₀ : Ptr) (xs : Cells A) (i : ℕ) (c : Ptr)
    (left : ℕ) : Type 0 where
  pub front : Cells A
  pub back : Cells A
  pub b : Ptr
  pub q : Ptr
  pub v : A
  pub splits : xs ≡ front ++ ((c, v) ∷ back)
  pub before : Seg h b c b₀ p₀ front
  pub here : Points h c b q v
  pub behind : Seg h last null c q back
  pub index : i ≡ length front + left
  pub ends : (left ≡ 0) ⊎ (back ≡ [])

pub Seg-ends :
    {A : Type 0} {h : Nodes A} {last after b p : Ptr} → Seg h last after b p [] → p ≡ after
Seg-ends nil = refl

Seg-starts :
    {A : Type 0} {h : Nodes A} {last after b p : Ptr} {x : Ptr × A} {xs : Cells A}
    → Seg h last after b p (x ∷ xs)
    → (p == null) ≡ false
Seg-starts (cons e s) = not_null e

module _ {A : Type 0} {h : Nodes A} {last : Ptr} where
  stop_here :
      {b p q : Ptr} {v : A} {xs : Cells A} (i : ℕ)
      → Points h p b q v
      → Seg h last null p q xs
      → (i ≡ 0) ⊎ (xs ≡ [])
      → Located h last b p ((p, v) ∷ xs) i p i
  stop_here {b} {q} {v} {xs} i e s stops = record {
    front = [];
    back = xs;
    b = b;
    q = q;
    v = v;
    splits = refl;
    before = nil;
    here = e;
    behind = s;
    index = omega arith;
    ends = stops;
  }

  step_over :
      {b p q c : Ptr} {v : A} {xs : Cells A} {left : ℕ} (i : ℕ)
      → Points h p b q v
      → 0 < i
      → Located h last p q xs (i - 1) c left
      → Located h last b p ((p, v) ∷ xs) i c left
  step_over {p} {v} i e pos w = record {
    front = (p, v) ∷ w.front;
    back = w.back;
    b = w.b;
    q = w.q;
    v = w.v;
    splits = ap (λ r. (p, v) ∷ r) w.splits;
    before = cons e w.before;
    here = w.here;
    behind = w.behind;
    index = omega (arith, w.index);
    ends = w.ends;
  }

module _ {A : Type 0} (m : Memory A) {last : Ptr} where
  get_node_loop-Located :
      (k i : ℕ) {b p : Ptr} {xs : Cells A}
      → Seg m.nodes last null b p xs
      → xs ≢ []
      → length xs ≤ k
      → (c : Ptr) × (left : ℕ) × Located m.nodes last b p xs i c left
        × (get_node_loop k p i m ≡ ok (c, left) m)
  unfolding get_node_loop
  get_node_loop-Located k i nil ne fuel = absurd (ne refl)
  get_node_loop-Located zero i (cons e s) ne fuel = absurd (omega arith)
  get_node_loop-Located (suc k) i (cons {p} {xs = []} e s) ne fuel =
      (p, i, stop_here i e s (inr refl), rw (load-ok m e, Seg-ends s))
  get_node_loop-Located (suc k) zero (cons {p} {xs = x ∷ xs} e s) ne fuel =
      (p, 0, stop_here 0 e s (inl refl), rw (load-ok m e, Seg-starts s))
  get_node_loop-Located (suc k) (suc i) (cons {p} {xs = x ∷ xs} e s) ne fuel =
      let (c, left, w, eq) = get_node_loop-Located k (suc i - 1) s (cc) (omega arith) in
      (
        c,
        left,
        step_over (suc i) e (omega arith) w,
        rw (load-ok m e, Seg-starts s, lt→ltb 0 (suc i) (omega arith)) eq,
      )

  pub dlist_get_node-Located :
      (l : DList) (i : ℕ) (return_last : Bool) {xs : Cells A}
      → Seg m.nodes last null null l.head xs
      → xs ≢ []
      → length xs ≤ l.length + 1
      → (c : Ptr) × (left : ℕ) × Located m.nodes last null l.head xs i c left
        × (dlist_get_node l i return_last m
            ≡ ok (if ltb 0 left && not return_last then null else c) m)
  unfolding dlist_get_node
  dlist_get_node-Located l i return_last s ne fuel =
      let (c, left, w, eq) = get_node_loop-Located (l.length + 1) i s ne fuel in (c, left, w, rw eq)

  pub dlist_get_node-last :
      (l : DList) (i : ℕ) {xs : Cells A}
      → Seg m.nodes last null null l.head xs
      → xs ≢ []
      → length xs ≤ l.length + 1
      → (c : Ptr) × (left : ℕ) × Located m.nodes last null l.head xs i c left
        × (dlist_get_node l i true m ≡ ok c m)
  dlist_get_node-last l i s ne fuel =
      let (c, left, w, eq) = dlist_get_node-Located l i true s ne fuel in
      (c, left, w, eq ∙ ap (λ p. ok p m) (dropped left c))
    where
      dropped : (left c : ℕ) → (if ltb 0 left && false then null else c) ≡ c
      dropped left c = ground arith

  -- Without the flag the walk finds the element at the index, or NULL past the end.
  pub dlist_get_node-found :
      (l : DList) (i : ℕ) {xs : Cells A}
      → Seg m.nodes last null null l.head xs
      → i < length xs
      → length xs ≤ l.length + 1
      → (c : Ptr) × Located m.nodes last null l.head xs i c 0
        × (dlist_get_node l i false m ≡ ok c m)
  dlist_get_node-found l i {xs} s inside fuel =
      let (c, left, w, eq) = dlist_get_node-Located l i false s (not_empty inside) fuel in
      let z : left ≡ 0 =
        at_end (length w.front) w.ends (ap length w.splits ∙ length-append w.front _) w.index in
      (
        c,
        subst (Located m.nodes last null l.head xs i c) z w,
        eq ∙ ap (λ p. ok p m) (kept left c z),
      )
    where
      not_empty : {ys : Cells A} → i < length ys → ys ≢ []
      not_empty {ys} h e = absurd (omega (arith, ap length e))

      at_end :
          {left : ℕ} (n : ℕ) {back : Cells A}
          → (left ≡ 0) ⊎ (back ≡ [])
          → length xs ≡ n + suc (length back)
          → i ≡ n + left
          → left ≡ 0
      at_end n (inl z) e k = z
      at_end n (inr z) e k = omega (arith, ap length z)

      kept : (left c : ℕ) → left ≡ 0 → (if ltb 0 left && true then null else c) ≡ c
      kept left c z = ground arith

  pub dlist_get_node-none :
      (l : DList) (i : ℕ) {xs : Cells A}
      → Seg m.nodes last null null l.head xs
      → xs ≢ []
      → length xs ≤ i
      → length xs ≤ l.length + 1
      → dlist_get_node l i false m ≡ ok null m
  dlist_get_node-none l i {xs} s ne outside fuel =
      let (c, left, w, eq) = dlist_get_node-Located l i false s ne fuel in
      eq
      ∙ ap (λ p. ok p m)
          (dropped left c
            (omega (arith, ap length w.splits, length-append w.front ((c, w.v) ∷ w.back), w.index)))
    where
      dropped : (left c : ℕ) → 0 < left → (if ltb 0 left && true then null else c) ≡ null
      dropped left c z = ground arith

-- On an empty list the walk reads through NULL.
pub dlist_get_node-empty :
    {A : Type 0} (m : Memory A) (l : DList) (i : ℕ) (return_last : Bool)
    → l.head ≡ null
    → dlist_get_node l i return_last m ≡ fault
unfolding dlist_get_node get_node_loop load
dlist_get_node-empty m l i return_last e = rw (add-one, e)
